-- ===== src/Lib.antt =====
-- Tacquito is a TACACS+ server and client library. This is a model of its protocol core, the packets
-- and their encodings, the obfuscation of bodies, the sessions of a connection and the loop that
-- serves one, and of the AAA server of cmds/server that is built on it: its handlers, authorizers,
-- authenticators and accounters, and the loader that makes them from a configuration.
--
-- The parts, from the wire upwards:
-- Wire: the read buffer and the length fields of packet.go. A byte or a uint8 kind is a number, a
--   text a list of bytes; the encoders keep a length's low byte or its two low bytes as the code
--   does, with `% 256`.
-- Fields: the typed fields of header_fields.go, authenticate_fields.go, authorize_fields.go and
--   accounting_fields.go, with their constants and `Validate`; children Header, Authen, Author, Acct.
-- Authen, Author, Acct: the seven packets of authenticate.go, authorize.go and accounting.go, one
--   module for each, with its record, options, `Validate`, `MarshalBinary`, `UnmarshalBinary` and
--   `Len`. Each has a child Codec, where its encoder and decoder are compared.
-- Header and Packet: header.go and packet.go. A pointer or slice that may be nil is an `Option`.
--   A slice is given with its spare capacity where the code slices past its length.
-- Crypt: crypt.go. `crypt` is in Crypt, detectBadSecret in Crypt/BadSecret, `read` and `write` on a
--   stream of bytes in Crypt/Connection.
-- Server: sessions.go in Server/Sessions, `response` of handlers.go in Server/Response, `handle`
--   of server.go in Server/Serve. A connection's sessions are a function from identifiers. A
--   handler is any program of calls of the interface `Response`, a `Script`, so that the results on
--   the loop hold for all handlers. Server/Accept is `Serve`, on the list of what the listener gives
--   in turn; Server/Serve/Proxied is the loop behind a proxy.
-- Handlers: cmds/server/handlers, from `Start` to a user's authenticator, authorizer and accounter,
--   as scripts. The provider's `GetUser` is a parameter. span.go is in Handlers/Span, where whether
--   the copy's connection can be dialled is a parameter; what the handlers give to `Record` of
--   cmds/server/log.go is in Handlers/Records.
-- Report: the `String` and `Fields` methods of header_fields.go, authenticate_fields.go,
--   authorize_fields.go, accounting_fields.go and the packets, `Fields` of a request in handlers.go,
--   and the writer of response_logger.go. A map is an association list, where the entry in front
--   counts; the names of numbers are in Report/Names, those of flags in Report/Flags, the maps of
--   packets in Report/Maps, those of requests and replies in Report/Requests.
-- Client: `Send` of client.go. What comes back is a function of what was written, so that a client
--   can be joined to the loop of a server.
-- Login: the packets of cmds/client, and its loop on the server's responses.
-- Proxy: proxy/readerwriter.go, and the line of a proxy in front of a packet in crypt.go.
-- Text: the operations of package strings on lists of bytes, on which the following rest.
-- Author/Args: `Arg` and `Args` of authorize_fields.go, the attribute-value pairs.
-- Config: cmds/server/config. types.go is in Config, aaa.go and provider.go in Config/Aaa, the
--   authenticators in Config/Bcrypt, the accounters in Config/Accounting. A map of options is a
--   function.
-- Stringy: cmds/server/config/authorizers/stringy, with one module for each of command.go,
--   session.go and stringy.go.
-- Loader: cmds/server/loader. loader.go is in Loader, its loop of updates in Loader/Updates as a
--   sequence of events, prefix_filter.go in Loader/Filter; cmds/server/config/secret is in
--   Loader/Secrets. The factories that are registered with the loader are a record of functions,
--   `Factories`, which is a parameter.
-- Base: lists, tests, bits, and `Result`, which tells a value from an error and from a panic.
-- Tests: runs on concrete packets, sessions, connections, requests and configurations.
--
-- The packets rest on Fields and Wire; Crypt tries the packets' decoders on a body it has read; the
-- loop of Server reads through Crypt, asks Sessions for the handler, runs it on a Response, and
-- stores or deletes the session. Handlers finds the user of a packet and runs one of its three
-- handlers, which are those of Stringy, Config/Bcrypt and Config/Accounting where the loader has
-- made them, and those of Config/Aaa, which deny, where it has not.
--
-- MD5 is a parameter, and the only thing assumed of it is that a hash has sixteen bytes. So are
-- regular expressions, the comparison of bcrypt, JSON, the parsing of prefixes, the lookup of names
-- and the printing of addresses; of prefixes it is assumed that one that is written out reads as it
-- did, and of printed addresses that they have no space and no null byte. The pad is built by
-- a loop on fuel, one round for each byte of the body, which is enough since a round adds sixteen.
-- The loop on a connection has one round for each byte that arrives and one more, which is enough
-- since each round reads a header.
--
-- Not modelled: counters, timers, locks, channels, deadlines and dialling, which hold no protocol
-- state; where a log's lines go, and the lines that are no record of a request; the decoding of
-- configurations from JSON and YAML; the field types that no packet uses, and `Len` of a text; the
-- removal of a port from an address; the options of a loader and the reading of its files; the
-- opening of an accounter's file; the flags of the command-line programs and what they print.
pub mod Base
pub mod Wire
pub mod Text
pub mod Fields
pub mod Authen
pub mod Acct
pub mod Author
pub mod Header
pub mod Packet
pub mod Crypt
pub mod Server
pub mod Handlers
pub mod Client
pub mod Proxy
pub mod Config
pub mod Loader
pub mod Login
pub mod Stringy
pub mod Tests
pub mod Report
