-- ===== src/Lib.antt =====
-- The aggregation router and the operator nodes of commonware-restaking: a router assigns heights of a
-- certificate log to tasks, tells the nodes by directives over p2p, and takes the certificates that
-- their aggregation engine assembles to the chain; a node resolves each height to a digest to sign.
--
-- The parts, and the files that model them:
--
-- - Wire: core/src/wire/mod.rs, the directives between router and nodes, their codec (over the codecs
--   of the commonware_codec crate and of the application's payload, as a record of functions, Codec),
--   and `skip_digest` over a hash parameter.
-- - TaskBook: node/src/task_book.rs, the actor that keeps the router's directives and answers the
--   engine's subscriptions (`handle_directive`, `handle_subscribe`, `prune_below`, `run`).
-- - DirectiveIngest: the same file's `ingest` and `beyond_window`, the loop that feeds the TaskBook and
--   reports the node's tip to a router that lost its journal.
-- - NodeReporter: node/src/reporter.rs, which follows what the node's engine certifies, moves the tip
--   handle that `ingest` reads, and prunes the TaskBook.
-- - Automaton: node/src/automaton.rs (`resolve`, `digest_for_announce`) and router/src/automaton.rs
--   (`propose`), the digests that the two engines are given.
-- - TipReports: router/src/sequencer.rs (`TipReports`, `ingest_tip_reports`), the tip that the router
--   trusts although some nodes may be faulty.
-- - Sequencer: router/src/sequencer.rs (`run`, `drive_height`, `drain_resolutions`), the assignment of
--   heights and the announce, rebroadcast and skip of one height at a time.
-- - CertReporter: router/src/reporter.rs, the record of certificates, which the sequencer reads and
--   which feeds the submitter.
-- - Submitter: router/src/submitter.rs (`handle_certified`, `submit`), which resolves certified heights
--   on-chain and tells the sequencer.
-- - Router: the process of examples/counter/router/src/app.rs, in which the actors of CertReporter,
--   TipReports, Sequencer and Submitter run side by side over shared assignments and two channels, as a
--   step relation on their joint state; every order of steps is a run.
-- - Node: the process of examples/counter/node/src/app.rs, in which the actors of DirectiveIngest,
--   TaskBook, NodeReporter and Automaton run side by side over their mailboxes and the engine tip that
--   they share, as a step relation on their joint state.
-- - Bn254: core/src/bn254/mod.rs, signatures of digests and their aggregation, over the arkworks groups
--   and their pairing as parameters, and (Encoding, Keys) the bytes of keys and signatures.
-- - Scheme: core/src/bn254/scheme.rs, the certificate scheme that the engines of nodes and router are given:
--   attestations (`sign`, `verify_attestation`), certificates (`assemble`, `verify_certificate`), the keys of
--   their signers, and the certificate's codec, over the signer bitmap and the quorum as parameters.
-- - Operators: eigenlayer/src/network.rs, the operator states of the quorums, and (Participants) what the
--   startup of examples/counter/node/src/app.rs and examples/counter/router/src/app.rs makes of them: the
--   peers (in Peers with the entry of the router), and the scheme of each side. The services, the ordered
--   containers and the resolution of host names are parameters. Deployment is
--   `read_avs_deployment_config` over the JSON of the serde_json crate.
-- - Counter: the application of examples/counter, that is common/src/types.rs, common/src/validator.rs and
--   router/src/source.rs there (the task, its digest, the validator and the task source), and (Config) the
--   settings of common/src/config.rs, over the parsing of strings and the arithmetic of floats. Handler is
--   router/src/executor.rs there with `convert_non_signer_data` of router/src/executor.rs: the call of the
--   contract in an attempt of the submitter, over what the contract answers; Executed ties it to the handler
--   of a certified height. Deployment is eigenlayer/src/config.rs with router/src/factories.rs there and
--   the constructor of the validator. Storage is the directory of the engine's journal, over a file system.
-- - Map is the standard library's BTreeMap with u64 keys, as a list in the order of the keys; Prelude
--   holds what the modules share.
--
-- Each actor is a record and a function from its state and a message to its state, and a run is a list
-- of messages, so every theorem over all lists of messages covers every interleaving that the mailboxes
-- may produce. What an actor sends is a field that grows. A oneshot sender, a peer, a key and an error
-- are numbers; a byte is a number below 256 and a height a number below 2^64, with the wrap-around of
-- `height + 1` written out. What the clock, `tokio::select!`, the chain, the validator, the hash and the
-- scheme's verification answer are parameters or stand in the events.
--
-- Fuel: `digest_for_announce` has one round for each half second of the budget and two more, since a
-- backoff is never shorter; the submitter's retries have three rounds, one for each attempt. Both are
-- proved to be enough. All other loops are over lists.
--
-- Not modelled: the arithmetic of the curve, the generated bindings, the runtime and the network of the
-- counter example, logging and metrics other than the node reporter's counters, and poisoned locks.
pub mod Prelude
pub mod Map
pub mod Codec
pub mod Wire
pub mod TaskBook
pub mod TipReports
pub mod CertReporter
pub mod NodeReporter
pub mod Submitter
pub mod Automaton
pub mod DirectiveIngest
pub mod Bn254
pub mod Router
pub mod Node
pub mod Scheme
pub mod Operators
pub mod Counter
pub mod Sequencer
