-- ===== src/Lib.antt =====
-- Stellar TimeLock: the client of the time-locked vaults, src/ of the repository, in TypeScript, and
-- the contract that holds them, contracts/xlm_vault, in Rust.
--
-- A vault is an entry of a Soroban contract that holds XLM until an unlock time. The client reads
-- and writes vaults over RPC endpoints (api/soroban-client.ts), explains failures
-- (api/soroban-errors.ts), reads balances and payments of the account (wallet/horizon.ts), keeps the
-- wallets' seeds behind the platform's authentication and in a session cache
-- (security/session-keystore.ts), derives keys of a secret behind biometrics
-- (security/biometric.ts), encrypts notes (notebook/crypto.ts), and zeroes what it used of secrets
-- (security/secure-wipe.ts).
--
-- Api, for src/api:
--   Errors: soroban-errors.ts. An error's class is the constructor that made it; `Humanize` is
--   `humanizeSimulationError`, on code points, with its regular expression as functions.
--   Failover: the retry loop over the RPC endpoints, as `loadAccount` has it.
--   Network: the Stellar SDK, the network, rpc-failover.ts, contract-config.ts, tx-receipts.ts and
--   the wallet, as a record of operations on a world.
--   Invoke: `loadAccount`, `invokeContract` phase by phase, and `recheckTransaction`. The state
--   counts the calls of `sendTransaction` and `getTransaction`, the receipts emitted, and the signers
--   that still hold their secret.
--   Vault: the vault records; Vault/Overlay is `buildArchivedOverlayFromMetas`, Vault/Sanitise the
--   sanitisation pass of `listVaults`.
--   Events: `parseEvent` and the dates in notes; Events/Fetch is `fetchContractEvents` with its caches
--   in memory and on disk, Events/Replay is `aggregateVaultsFromEvents`.
--   Session: the module's flags and `pushSnapshotToBackend`.
--   Listing: `listVaults` and `summary`. Single: `getVault`. What the cache, the backend, the
--   simulation and the events answer during a call is an argument, and so is `mergeVaults` of
--   vault-cache.ts, which is not in the repository. These use Events, Vault and Session.
--   Read: `invokeRead`. Metadata: `loadMeta`, `saveMeta`, the hydration and `getVaultMeta`.
--   History: `vaultTransactions` and `allTransactions` with `fetchArchivedCreateEvents`.
--   Write: `createVault`, `deposit`, `extendLock` and `withdraw`, which compose Invoke, Metadata and
--   Single. Wake: `wakeUpVault`, over the state of Invoke, the event cache and Session; Wake/Submit is
--   its `submitOne`, Wake/Finish what follows the two transactions.
--
-- Security, for src/security:
--   Keystore: session-keystore.ts over a `Device` (Keystore/Storage), the stores and the clock;
--   `IsLawful` is what the stores are documented to do. Keystore/IdleLock is the AppState listener.
--   Keystore/Turns has the reads and stores turn by turn: an operation that waits for the device is a
--   `Task`, and other turns may come between its own.
--   Wipe: secure-wipe.ts on a memory of buffers with the pending timers; Wipe/Utf8 is
--   `utf8ToMutableBytes` over UTF-16 units.
--   Biometric: biometric.ts over a `Device`; Biometric/Hkdf is `hkdfSha256` on bytes.
--
-- Notebook, for src/notebook: crypto.ts over the libraries of Notebook/Libraries. Keys and the bytes of
--   seeds lie at addresses, so that a wipe is seen through every reference. `encrypt` is composed of
--   its stretches between awaits, `getKey`, `encrypt_with` and `seal`.
--
-- Wallet, for src/wallet: Horizon is horizon.ts, over the numbers of JavaScript and the answers of the
--   server, with what a balance is to be in Horizon/Answers; Horizon/Payments is
--   `fetchWalletPayments`, with Lookups, Memos and Listed for its proofs.
--
-- Contract, for contracts/xlm_vault/src/lib.rs: `init`, `create_vault`, `deposit`, `extend_lock`,
--   `withdraw`, `get_vault` and `list_owned` as actions over a chain (Contract/Host): the storage by its
--   four keys, the tokens' ledger, the ledger time and the events. The token contract is a record of its
--   balances and `transfer`; who has authorised a call is an argument. Contract/Effects is the
--   specification: the change that each call (Contract/Call) makes, and when. Contract/Calls has the
--   host's rollback, and Contract/Steps what may happen to a deployed contract: calls by anyone but the
--   contract itself, time, and transfers by others. Contract/Seen is how its events reach `parseEvent`
--   of the client, over the host's encoding as a parameter; Contract/Shown, Replayed and Undated set
--   the client's replay and fetch of events against the contract's storage, and Contract/Status the
--   status that the client shows of a vault against what the contract answers to a withdrawal.
--
-- Common: tests on numbers and texts, lists, association lists for `Map`, integers, calls that may
-- throw over an explicit state, texts as code points, and a stable sort.
--
-- Bounds: the polling loop recurses on its attempts (30 of 1500 ms), the re-simulation of a wake-up on
-- its 3 attempts, the retry loop on its rounds (one for each endpoint), the page loop on its pages (20,
-- the source's own bound), the expansion of HKDF on its blocks, the decimal digits of n on n + 1 rounds,
-- which is enough for n; all other
-- loops recurse on a list. Amounts of XLM are numbers of JavaScript, of which the code uses only
-- zero, a sum, a sign test and the conversion from stroops: they are a type with these operations.
-- Timestamps are integers; a date that does not parse is `none`, and an event's timestamp is a
-- number, as the ledger's closing time always parses. The contract's u64 and i128 are numbers and
-- integers with the overflow of each sum that it computes written out.
--
-- Not modelled: the interleaving of awaited calls, but for those of the keystore (Keystore/Turns) and
-- for a switch of the wallet between the stretches of the notebook's calls; logging; failures of
-- the store that holds the metadata; the reset of the event cache when the network changes;
-- the archival of the contract's entries by their time to live, which makes a call fail; the throw of
-- `rpcServer` on an RPC URL that is not https; and the difference of `undefined` and `null` in the
-- target amount of stored metadata.
pub mod Common
pub mod Api
pub mod Security
pub mod Notebook
pub mod Wallet
pub mod Contract
