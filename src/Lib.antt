-- ===== src/Lib.antt =====
-- A verification library for the Python core of the repository.
--
-- The parts, the files that model them, and the code that they stand for:
--
--   Dex         packages/l3-dex/src/l3_dex: pools, their actions (apply_action) and the check of a
--               state (check_invariants). State is the tuple of pools; the integers are ℤ.
--   Router      packages/l3-router/src/l3_router: apply_route runs up to eight swaps over a Dex state
--               and returns receipts, which replay_route checks. Amounts are natural numbers once
--               the guards have found them not to be negative.
--   Private     packages/l2-private-ledger/src/l2_private_ledger: mints and spends, the root of the
--               two sets, traces and their replay.
--   Devnet      packages/l1-chain/src/l1_chain/devnet/adapter.py, with what it uses of types.py and
--               hashing.py: payloads, mempool, blocks, Merkle roots, state proofs.
--   Reputation  packages/l0-reputation/src/l0_reputation: events, scores, roots.
--   Fees        packages/l2-economics/src and packages/l2-platform-fee/src/l2_platform_fee, and the
--               gateway's fees.py, which asks them for a quote and pays it (route_fee).
--   Gateway     apps/nyx-backend-gateway/src/nyx_backend_gateway: Wallet, Transfers and Orders model
--               storage.py (balances, apply_wallet_transfer, the grants, the tables of orders and
--               trades), Exchange models exchange.py (place_order, cancel_order), which calls them
--               without commit inside one transaction. Store is the connection: the committed
--               tables and those that it sees; Monad is a call that may raise.
--               Fields models validation.py and assets.py, Inserts the insert_ functions of the other
--               tables, Evidence evidence_adapter.py. On them stand Marketplace (marketplace.py),
--               Faucet (execute_wallet_faucet_v1 of gateway.py), Airdrop (the v1 functions of
--               airdrop.py), Dispatch (execute_run of gateway.py, for orders and cancellations)
--               and Portal (portal.py and its tables: accounts, challenges, sessions). Risk is
--               the limits on rates of risk.py, whose windows are of positive length. Keeps and
--               SameElse say what a call leaves alone, whether it returns or raises.
--   Base        shared names: tests, lists and bytes over native numbers, integers, texts, results.
--
-- Calls that raise return an error as a value: the message of the exception, with its class where
-- several meet. In the gateway and in the devnet the state that a raise leaves is kept. Objects are
-- taken to have the types that the code checks with isinstance; the code's order of checks is kept.
--
-- A request of the gateway opens a connection and closes it: what it has not committed is lost
-- (request in Store). The time of a request, the answer of the compliance service and the outcome
-- of the evidence run are arguments; a handler that needs a fee takes route_fee as a parameter,
-- with the settings and the digests already given. There a payload is a
-- function from keys to values, so that the checks on missing keys and on types are those of the code.
--
-- Parameters stand for what is not in the repository: SHA-256 and HMAC of hashlib and hmac, base64,
-- the texts of the json module, str, upper and the classes of characters of Python, the settings. Where a digest of
-- canonical JSON is only passed on (_trade_id, _fee_id) the whole
-- function is a parameter, and the theorems hold for every such function. The one hypothesis on
-- SHA-256 is that its digests have 32 bytes (HasDigests in Fees). The limit of canonicalize on the
-- size of its output is modelled for the actions of the fees, the states of the router, and the state
-- root and the state proofs of the devnet; for quotes, receipts and block references, whose texts are short, it is left out.
--
-- The only fuel is that of the loop of compute_merkle_root; its bound, the length of the level, is
-- shown to be enough. All other loops are structural on lists. SQLite's limit of 64 bits on
-- integers is written out where numbers are bound (bind_integer).
--
-- Not modelled: HTTP servers, configuration, metrics, migrations, evidence files, drills and demos,
-- which are input and output; of execute_run the requests of chat, entertainment and dapps, and the
-- first checks on the caller; the wallet's transfer and the older faucet and airdrop requests; chat
-- rooms; the tokens of auth.py; web2 guard, wallet kernel, fee bindings, and the
-- canonical JSON encoders but that of l2-economics.
pub mod Base
pub mod Dex
pub mod Router
pub mod Devnet
pub mod Private
pub mod Fees
pub mod Reputation
pub mod Gateway
