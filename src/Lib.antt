-- ===== src/Lib.antt =====
-- A model of the core of SupabaseInstaller, a manager that installs and runs Supabase servers on one host.
-- The manager keeps projects, operations and host ports in SQLite; a provisioner runs the containers; an
-- agent beside nginx installs one virtual host for each server.
--
-- Parts and files:
-- Contracts: internal/contracts/project.go and operation.go, the values that the parts exchange.
-- Db: apps/manager/internal/store/sqlite.go. A computation in the database takes the tables and a list of
--   faults, one Boolean for each statement that it will run (true: the driver fails; no entry: it does
--   not), and gives a result with the tables and faults that are left. `in_tx` is InTx: it puts the tables
--   back if its body, or the commit, fails. Db.Schema has the tables of store/migrations/*.sql that the
--   modelled code uses.
-- Store.Operations: apps/manager/internal/store/operations.go; Store.Ports: store/ports.go. One function
--   for each method, in snake case, and helpers for the statements of a body.
-- Operation: apps/manager/internal/operation/service.go. `Operation.Methods.perform` is the dispatch over
--   its methods that change an operation, `Operation.Traces.serve` a sequence of requests to it.
-- Ports: apps/manager/internal/ports/allocator.go over Store.Ports.
-- Slug: apps/manager/internal/project/slug.go and the slug pattern of project/validate.go.
-- Site: apps/nginxproxy/internal/site/site.go (names) and store.go (Apply and Remove). Site.Host is the host:
--   a place is a file of one of the three directories, and each system call or command may fail.
--   Site.Paths is the part of path/filepath that store.go uses.
-- Store.Projects: apps/manager/internal/store/projects.go without the creation of projects; `without` is what the
--   foreign keys of store/migrations make of the other tables when a project is deleted.
-- Store.Secrets: the secrets in the same file; an envelope is opaque.
-- Lifecycle: apps/manager/internal/lifecycle/service.go over Operation and Store.Projects; the provisioner is a
--   parameter.
-- Health: apps/provisioner/internal/health/inspect.go.
-- Contracts.Configuration: internal/contracts/configuration.go. Validation: apps/manager/internal/project/
--   configuration.go, preset.go and the hostnames and URLs of validate.go. A validator is the list of its checks in
--   order, and `Validation.run` makes the messages of them; Validation.Whole is ValidateConfiguration.
--   Validation.Address, Validation.Draft: NormalizeProjectAddress and ValidateDraft of validate.go. Validation.Tls:
--   ManagedTLSPaths of internal/contracts/tls.go.
-- Secrets: encryptConfigurationSecrets of apps/manager/internal/project/service.go and redactConfiguration of
--   apps/manager/internal/store/configuration.go.
-- Store.Configuration and Store.Leases: the canonical configuration and the leases of the same file; Store.Times is the
--   order of times as SQLite compares their texts.
-- Store.Auth and Auth: apps/manager/internal/store/auth.go and auth/service.go; Auth.Encoding has the two encodings of
--   random bytes.
-- Installer: apps/manager/internal/install/orchestrator.go over Operation, Ports, Store.Secrets and
--   Store.Configuration; Installer.Run is Run with its steps and rollback. Where the
--   rollback fails too, the error is the cause alone, as for every error that is wrapped. Db.Frame has the rules for what
--   an action leaves alone; Installer.Aside, Installer.Kept and Installer.UnderWay apply them
--   to the parts of Run.
-- Tests: runs on concrete inputs.
--
-- Conventions: an error is a constructor of a data type, without the text that fmt.Errorf adds. A time is a
-- number of nanoseconds, and the clock and new identifiers are arguments. The map that TryReservePorts takes
-- is an association list, and its order of iteration the order of that list. Progress and sequence numbers, which the
-- code never makes negative, are natural numbers. A statement has the constraints of its table in
-- store/migrations written out as its guard.
-- The loops of ReserveMany and CandidateMany run on the number of cursors and offsets that remain, at first
-- the size of the range, as in the code: the bound is the code's own, and no fuel is added. The probes of the
-- allocator are parameters, and so are the Unicode tables of slugs and addresses.
-- All functions are total, so each of them returns.
--
-- Parameters: the packages net, net/url, net/mail and unicode (Validation.Texts.Packages), with url.Parse and
-- the letters that strings.EqualFold takes as equal as arguments of their own; SHA-256, the password
-- hasher, the random reader and the clock (Auth.Sources); the cipher of secrets (Secrets.Cipher); the provisioner and
-- the generator of secrets (Installer.Run.Orchestrator).
--
-- Not modelled: HTTP, Docker, the contents of certificates, cryptography, and the wiring of the programs; temporary files of the
-- atomic writes; permissions of directories; concurrent requests between two statements of one method. The
-- configuration orchestrator, the admission and restoration of configuration revisions, functions, rendering and the
-- provisioner's runtime are not modelled either. A column with JSON is the value that it encodes.
pub mod Prelude
pub mod Contracts
pub mod Errors
pub mod Db
pub mod Store
pub mod Operation
pub mod Ports
pub mod Slug
pub mod Validation
pub mod Auth
pub mod Secrets
pub mod Site
pub mod Health
pub mod Lifecycle
pub mod Installer
mod Tests
