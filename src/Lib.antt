-- ===== src/Lib.antt =====
-- Verification of rkn-checker, a service that tells whether a URL is in a registry of blocked sites.
--
-- The program's parts. A request comes with a URL. The service (internal/application) has the
-- normalizer (internal/domain/services) turn it into a bare host name or address, and asks the
-- store (internal/infrastructure/storage) about that. The store keeps maps for names, addresses and
-- URL patterns, a radix tree for wildcards, and a Bloom filter in front of them. A scheduler
-- (internal/infrastructure/updater) has a client (internal/infrastructure/registry) fetch the
-- registry, which a parser reads, and has the store rebuild its tables from it. The requests come
-- in over REST and gRPC (internal/delivery), and cmd/app/main.go reads the configuration and puts
-- the parts together.
--
-- The files.
--   Domain/Url.antt, Domain/Blocking.antt, Domain/Registry.antt: internal/domain, one definition for
--     each function of url.go, blocking.go and registry.go.
--   Normalizer.antt: internal/domain/services/url_normalizer.go.
--   Storage/Radix.antt, Storage/Bloom.antt, Storage/MemoryStore.antt: the file of internal/
--     infrastructure/storage with the same name. Storage/Dict.antt is Go's map with string keys.
--   Service.antt: internal/application. Service/Answers.antt puts the program's normalizer and
--     store in.
--   Registry/Parser.antt, Registry/Client.antt, Registry/Official.antt, Registry/Source.antt: the file
--     of internal/infrastructure/registry with the same name (official_source.go for Official, whose
--     exchanges are in Registry/Exchange.antt).
--     Registry/Blocked.antt puts the parser before the store.
--     Registry/Errors.antt is errors.go; the parser returns these errors, and Registry/Reported.antt
--     makes them of those of the client and the official source.
--   Updater.antt: internal/infrastructure/updater/scheduler.go, with its goroutines and callers
--     in Updater/Lifecycle.antt (their phases in Updater/Goroutines.antt), and the waits between the attempts in Updater/Deadline.antt.
--   Delivery/Rest.antt, Delivery/Grpc.antt, Delivery/Common.antt: internal/delivery/rest, grpc and
--     common, with the servers in Delivery/Rest/Server.antt and Delivery/Grpc/Server.antt.
--     Delivery/Http.antt is what handlers do with net/http, Delivery/Agreement.antt compares
--     the two deliveries, and Delivery/Answered.antt puts the service behind the REST server.
--   Configuration.antt: internal/infrastructure/config/config.go.
--   Main.antt: cmd/app/main.go up to its goroutines, which are in Main/Shutdown.antt.
--   System.antt: the parts as cmd/app/main.go puts them together, the scheduler at the store that
--     the servers ask.
--   Platform.antt: the parts of Go's library that the program calls, as parameters.
--   Prelude.antt, Text.antt: shared types, lists, results and texts, with their lemmas.
--   Tests: runs of the definitions, and an instance of each result below at concrete input.
--
-- State and operations. A struct is a record; a method that changes it is a function that returns the
-- new one. What a mutex makes one step is one function. An error is a constructor, a nil pointer is
-- `none`, a panic is `none` where a theorem is about one. A string is a list of bytes. The clock's
-- reading is an argument. The abstract view of the store is `verdict` of
-- Storage/MemoryStore/Verdict.antt, which reads the answer off the entries; Updater/Refines.antt
-- replaces the store below a scheduler by such a view, and Storage/MemoryStore/Unordered.antt takes
-- the entries as a set, a quotient of their lists.
--
-- A handler of HTTP is the list of what it does to its writer and to the log, and whether it panics
-- at the end; the status and the body that a client gets are read off that list. A call over gRPC is
-- its result, or `none` where it panics, and what it logs. The network, the environment variables, the
-- mux and the encoder are records of functions.
--
-- Bounds. Numbers are ℕ, and the settings of the configuration are ℤ. The 64-bit arithmetic of the
-- Bloom filter and of the scheduler's backoff is written with its wrap-around; the counters of the
-- scheduler and the sizes of the tables are not bounded. Every loop is structural recursion over
-- the list, the tree or the attempts that are left, so no fuel is used. The steps of the scheduler
-- and of the exit are taken in any order; a performUpdate is three of them: it
-- counts the update, makes its attempts, and records how they ended.
--
-- Not modelled: the generated code of the protocol; the TLS settings and the unused XML structures of
-- the official source; the texts of the errors of Validate and of NewClient; durations in the log. The
-- float64 formulas of the Bloom filter and of SuccessRate are parameters, as is what fmt prints of
-- numbers, quoted strings and times.
pub mod Prelude
pub mod Text
pub mod Platform
pub mod Domain
pub mod Storage
pub mod Normalizer
pub mod Service
pub mod Delivery
pub mod Registry
pub mod Updater
pub mod Configuration
pub mod Main
pub mod System
pub mod Tests
