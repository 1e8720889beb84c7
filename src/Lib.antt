-- ===== src/Lib.antt =====
-- tsbootkit: network boot servers (DHCP, BOOTP, TFTP and the PXE composition) in TypeScript.
--
-- A client broadcasts a DHCP DISCOVER and a REQUEST; the DHCP server answers with an address from
-- its lease state and with the name of a boot file, which the client then reads from the TFTP
-- server. The parts and the files that model them:
--   * tftp/types.mts: Tftp/Types, Tftp/Opcode and Tftp/ErrorCode.
--   * tftp/protocol.mts: Tftp/Encode (encodeRRQ and the other encoders), Tftp/Parse (parsePacket
--     and the payload parsers) and Tftp/Options (validateOptions, validatedToRaw).
--   * tftp/state.mts: Tftp/Transfer. The class TFTPTransfer is the record Transfer, and a method
--     that changes it is a function to the changed record and the method's result.
--     Tftp/Paths is isPathInRoot; Tftp/Requests takes its answer as part of a record.
--   * tftp/server.mts: Tftp/Server. A handler gives the changed transfer and the list of effects
--     on the outside (packets, file operations, events) in their order.
--     Tftp/Requests is handleMessage with the handlers of new requests; the transfers are a map from
--     the peer's address and port, and what the file system and the path check answer is a record.
--   * shared/network.mts: Net. Addresses as dotted quads and as 32-bit numbers, generateRandomIP.
--   * tftp/client.mts: Tftp/Client (the settings of TFTPClient), Tftp/Client/Get and Tftp/Client/Put.
--     The variables of a transfer's promise are a record, and the timer and the socket's listener
--     are functions to the changed record and the effects. Get/FromServer and Put/ToServer put the
--     client together with the server of Tftp/Server.
--   * config.mts: Config (the data), Config/Validate (validateConfig and findReservation) and
--     BootFile (resolveBootFile and archToBootFile).
--   * dhcp/protocol.mts and shared/encoding.mts: Dhcp/Options (the option lists), Dhcp/Packet
--     (parseDHCPPacket and the field readers and writers), Dhcp/Packet/Encode (encodeDHCPReply and
--     encodeDHCPNAK) and Dhcp/Frame (ipChecksum and encodeRawDHCPFrame).
--   * bootp/protocol.mts: Bootp/Packet, encodeBOOTPReply.
--   * dhcp/server.mts: Dhcp/Types (the state) and Dhcp/Leases (the message handlers, allocation and
--     garbage collection). The DHCP server calls Net for an address and BootFile for a file name.
--   * bootp/server.mts: Bootp, the allocations and the message handler of the BOOTP server, which calls
--     Net and BootFile in the same way.
--   * shared/http.mts: Http, the requests to HTTPServer, its ranges and the collection of transfers.
--   * shared/log-buffer.mts: LogBuffer.
-- All of these paths are in the folder src of the repository. Base holds what they share: tests,
-- lists, JavaScript strings as lists of character codes, node buffers as lists of bytes, and the
-- Map and Set of JavaScript as lists in insertion order.
--
-- Bounds and fuel: numbers are exact natural numbers, with the 32-bit results of the bitwise
-- operators and the 8-bit and 16-bit writes of buffers written out. The random choice of an address
-- makes 1000 attempts, as the source does. The parser of DHCP options runs on as much fuel as the
-- buffer has bytes, and the send loop on one round more than the window has blocks; theorems below
-- say that neither runs out.
--
-- The clock, the numbers drawn from Math.random, the content of a file, and the paths and the file
-- system of Node are arguments. Strings of digits are the only numerals that Number reads here, and
-- the numbers of a configuration are integers or NaN. Sockets, timers, hooks, logging and files are
-- outside: what the code asks of them is an effect or a reply. Handlers run one after another, a
-- write to a file being done before the next packet comes, but for the DATA packets of Get/Overlap,
-- which come while a block is being written. Numbers are exact where JavaScript's are, below 2^53;
-- larger ones, which only the tsize option can name, are not rounded here. Not modelled:
-- the interactive TFTP client, reading the configuration file, the
-- health and dashboard pages, mDNS, netconsole, the command line tools, and the PXE
-- server, which starts and stops the other servers: they are input and output for the most part.
pub mod Base
pub mod Net
pub mod BootFile
pub mod Tftp
pub mod Dhcp
pub mod Bootp
pub mod Config
pub mod Http
pub mod LogBuffer
