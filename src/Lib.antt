-- ===== src/Lib.antt =====
-- Models and proofs for the Rust crates of this repository.
--
-- B255 (b255/src): the Base255 codec, in Util (util.rs), Encode and Decode; Codec, Texts and Errors
-- hold what the two functions promise each other. Fuel: chunks are counted by the bytes, and the
-- digits of `encode` by twice the bytes.
-- IpSet (ip_set/src/lib.rs): Range is `Range` and the trait `IpRange`, IpMap and Set are the map and
-- the set. An address is a number, and the two implementations of the trait differ in its bits.
-- PickFast (pick_fast/src/lib.rs): the weighted picker, method by method, and in Concurrent as
-- atomic steps of many threads. What the random generator draws is an argument.
-- Text: what the crates use of the standard library's strings.
-- Idns (idns/src): Address is what records and queries call an address, Records the kinds of record
-- (parse/*.rs), Spf the policy of a sender (parse/spf.rs) with Parse for its text, Macro for its
-- macros and Check for its evaluation, whose counter of lookups is the state. What a name resolves to
-- is a function in a record, as are the parser and the printer of addresses. Fuel: 17 counts nested
-- records, and the code's own limit is 16 lookups.
-- DnsParse (dns_parse/src): Name is `read_name` and `skip_name`, Response the rest of `parse`, Query
-- `build`; Named says what a name in a message is, Rounds how the loop goes through one, Labels what
-- text its labels make. UTF-8 and the printing of numbers are parameters,
-- as is where an empty slice stands. Fuel counts the rounds of a loop; `read_name` has no bound of
-- its own, so the caller gives it.
-- Race (race/src/lib.rs): the executor; Polled is what one poll does, Complete many, Progress when
-- one settles. A poll gets the instant, the timers that are over and how far the tasks are.
-- KvId (kvid/src): calls of `next` and fills of a segment one after the other; Steps is what each
-- keeps, Increasing what they return. The shared counter's replies are arguments. Fuel counts rounds
-- of `next`; a call has two. Calls that overlap are not modelled.
-- ExpireCache (expire_cache/src/lib.rs, get_or_init.rs; expire_set/src/lib.rs): a cache of two
-- generations and the task that swaps them, as a state with the time of the task's next step;
-- Latest is what get returns, Lifetime how long. The maps are a record of operations and laws.
-- CertByHost (cert_by_host/src): the cache of certificates, with the set of absent hosts that
-- ExpireCache gives, and the hourly task; Fresh is what the task leaves, Again a second call.
-- A call has a step before its fetch and one after it.
-- XHash (xhash/src/lib.rs, hasher.rs): the hash and the hasher of parts, over the hash function of a
-- crate; Streamed relates the two, Lengths is on hashes of different lengths.
-- AutoZstd (autozstd/src): encode and decode over the crate zstd, which is a record; RoundTrip
-- relates them, Tries is how often decode enlarges its buffer. Fuel counts the tries: 19 lead from
-- 4096 to 2^30.
-- AgentStream (cersei_rs/src/stream.rs, msg.rs): the texts of an agent on their way to the reader;
-- Visible follows them into the channel, Reader out of it.
-- Idot (idot/src/dot.rs, error.rs): queries over TLS with a connection that is kept, over a network
-- that is a record; Exchange is what they get of a server that keeps to the protocol. It uses build
-- and parse of DnsParse. Queries that overlap are not modelled.
-- Sur (sur/src): the client of a database; Sur is signing in (auth.rs), Query client.rs and db.rs,
-- RecordId record_id.rs; Issued and Tokens follow the token, Sends counts requests, Items is what a
-- query returns of an answer, Ids which texts are record ids. The crates for HTTP and the codecs are a record.
-- Upload (upload/src/s3): the headers of a signed request; Spec and Values have the texts of version 4 of the
-- signature of AWS, Signed compares sign with them, Date reads the time of a request back.
-- IReq (ireq/src/lib.rs, retry.rs): a request that is sent again when it failed, over a crate that is
-- a record; Recovers is on servers that fail for a while.
-- SmtpRecv (smtp_recv/src, mail_struct/src, xmail/src): SendTo, Cmd, ReadMail and Run are the parts
-- of session.rs, send_to.rs and cmd.rs that both sessions share; Stream is stream/mod.rs, Reply s.rs
-- and error.rs, Mail the mail that is made of a sender and receivers. Send is send/session.rs,
-- Forward is forward/session.rs. A session is a state with the operations of the trait Session, and
-- Invariants shows what a run keeps from what the operations keep. What the client sends is a list
-- of lines, with what the buffer holds after each; the crates and services that a session calls are
-- functions in a record. Fuel counts lines.
-- Writing to the client does not fail, and case and white space are those of ASCII.
-- SmtpSend (smtp_send/src/send.rs, lib.rs, error.rs; mail_struct/src/send.rs): the delivery to the
-- mail servers of a domain, over a network whose state the operations of a connection change.
-- TrimLi (trim_li/src): lib.rs and restore.rs; Reference is the lines of a text by other means, and
-- Restored relates the three. The bitmap of the crate
-- roaring is a record of operations and laws. Fuel counts lines, and the length of the text is given.
--
-- Words wrap at their width, as in a release build; a panic is `none`. The instants of Race, the ids
-- of KvId and the counts of SmtpSend stay below their width. Printing, logging, Vec
-- capacities and the crates' uses of the network are not modelled.
pub mod Common
pub mod Text
pub mod B255
pub mod IpSet
pub mod Idns
pub mod DnsParse
pub mod PickFast
pub mod Race
pub mod XHash
pub mod CertByHost
pub mod AutoZstd
pub mod AgentStream
pub mod Idot
pub mod Sur
pub mod Upload
pub mod IReq
pub mod ExpireCache
pub mod KvId
pub mod SmtpRecv
pub mod SmtpSend
pub mod TrimLi
