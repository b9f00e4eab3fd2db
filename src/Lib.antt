-- ===== src/Lib.antt =====
-- tunnet-lite: a client that fetches a directory of exits and entries from a control plane, chooses
-- among them, renders a configuration for xray-core and serves it.
--
-- The parts, and the files that model them (paths from the repository's root):
-- * internal/inventory/inventory.go is Inventory: Types has its records, Key `NormalizedKey`, Check
--   `Load`, `Validate` and `FillMissingFrom`, Select `SelectHost`, `SelectGroup` and `SelectRoot`.
-- * internal/inventory/diff.go is Inventory/Diff: `Compare`, `Changes.Empty` and `Changes.String`.
-- * internal/control is Control: Version is version.go, Directory is directory.go, Authorize is the
--   verification link of authorize.go, and Session is session.go with `Identity.Save` of identity.go.
--   Identity is the rest of identity.go, and Open is `NewIdentity`, `LoadIdentity` and the session's
--   `Open`. Client is client.go with `Authorize`: the signed request (Client/Signed) and the sealed
--   response (Client/Sealed). Transport is transport.go: the hardened client (Transport/Hardened), the
--   dialer that retries (Transport/Retry) and the dial function over a resolver (Transport/Literal).
--   A session is a chain of actions on the identity, the version and the world outside (Exec); every
--   call of the client, the file system and the clock is a field of `Env`, whose answers may depend on
--   all that went before, and so is each JSON codec.
-- * internal/pinning/pinning.go is Pinning: the store, `Open`, `Get`, `Set` and the callback of
--   `Verifier`. SHA-256, the raw key of a certificate and the disk are parameters.
-- * internal/probe/probe.go is Probe: the dial of one address, and the ranking of what they answered.
-- * internal/engine/engine.go is Engine: `Apply`, `Stop` and `Status` as steps on the engine's state,
--   over an xray-core that is a parameter; Engine/Sole relates them to the instances that run outside.
-- * internal/xcfg is Xcfg: the options and their defaults, and in Render the whole configuration of
--   `Build` with the rules of routing.go, as a JSON tree (Json); Assets is `ResolveAssets`. Of the
--   theorems, References has the tags, Bounds the times, and Total that `Build` does not panic.
-- * internal/supervisor is Supervisor: `Resolve`, which chooses from an inventory by Inventory, ranks
--   by Probe and renders by Xcfg, and `Start`, which hands the result to Engine. Resolved is about the
--   plan, Laws about its entries, Starts about what runs, and Total about panics.
-- * internal/rules/fetch.go is Rules: the fetch of the rule sets, with the files as part of the state.
-- * internal/resolver/doh.go is Resolver, which the transport takes as a record of two lookups.
-- * internal/updater/updater.go is Updater: the loop over a sequence of ticks, with the refreshes of
--   Control.Session and the comparison of Inventory.Diff.
-- * internal/paths/paths.go is Paths.
-- * internal/console/console.go is Console: its commands and its loop are steps on the choices of the
--   user, over Engine, Supervisor and Control.Session; Console/Screen is what it prints, Console/Safe
--   has each command, Console/Bounds their indices, Console/Laws and Console/Ends the loop, Console/Listed the numbers that it
--   prints and takes, and Console/Quiet which commands touch the engine.
-- * main.go is Main: the locations, the routing choice and the hardening that the options ask for.
--   Main/Flags is `parseCLI`, over the flags of Main/Flags/Table. Main/Machine is what the process finds
--   around it: one record, from which Main/Machine/Views makes the parameters of each part, so that the
--   session's client sends through the hardened transport and all of them see one world. Main/Run is
--   `openSession`, `openExistingSession`, `refreshInventory` and `startWatching`, and Main/Execute is
--   `run` and `execute`.
-- Base has what they share: results and errors, actions that may fail (Action), Go's maps, sorts and
-- string functions, base64, decimal numerals, UTF-8 and host-and-port addresses.
-- Tests has runs of the code and the theorems at concrete data.
--
-- Numbers: an `int` or a duration is an integer over the native numbers. The wrap-around of 64 bits
-- is written out where the code multiplies or adds (`4 * timeout` in `applyDefaults`, the seconds
-- of `Bootstrap`, the expiry of a signature); `strconv.Atoi` gives an error out of range. Errors
-- keep the format of their message and its text arguments, unrendered. A panic (an index out of
-- range, a nil pointer, a draw below 0) is `none`, and the bounds check before an index is a test of its
-- own: the console's commands check a number against one read of the inventory and index another, and
-- `Build` takes the first tag after `validate`. Where the loop of `versionLess` counts up to the longer of two
-- lists, the model has that many rounds to go; `strconv.Itoa` has as many rounds as the number, of
-- which each takes a digit off; the rounds of a rule file are as many as its attempts. No other
-- function is on fuel: the loops are recursion on the list or the text that the code goes through.
--
-- Parameters: JSON, files, the network, TLS and HTTP, the clock, random numbers, `url.Parse`, the
-- DNS codec, SHA-256, ed25519, HPKE, the tables of case folding, and xray-core. Mutexes are not
-- modelled: each operation under one is one step. A command of the console reads the inventory once or
-- more: a line comes with the inventories that the updater installs before its further reads. The
-- theorems on panics are about lines without any, since the code panics on a list that got shorter.
--
-- Not modelled: log output, with `reportTLSOnce` of client.go and `logPlan` of supervisor.go, which
-- only log; the widths of the console's tables; the parsing of arguments, which is the flag
-- package's; `main`, which prints the error that `execute` gives; the rendering of errors; timeouts
-- and the end of a context where the code only hands it on. The console and the updater that runs
-- beside it each have the session's state of their own, and an inventory that the updater finds is an
-- input of the console.
pub mod Base
pub mod Inventory
pub mod Control
pub mod Pinning
pub mod Probe
pub mod Engine
pub mod Xcfg
pub mod Supervisor
pub mod Rules
pub mod Resolver
pub mod Updater
pub mod Paths
pub mod Console
pub mod Main
pub mod Tests
