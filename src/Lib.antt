-- ===== src/Lib.antt =====
-- sol-token-mill: a launchpad of tokens on a bonding curve. The program under
-- programs/token-mill/src keeps markets (a base token sold along a price curve in ten intervals for a
-- quote token), splits the fees of trades among creator, stakers, protocol and referrers, lets holders
-- stake and vest the base token, and has a configuration with an owner and badges for quote tokens.
--
-- Parts and files (sources are relative to programs/token-mill/src unless they say otherwise):
--
--   Base, Base/*            shared names: lists and integers over the native numbers, tests, lemmas on
--                           divisions that round up or down
--   Errors                  errors.rs; the results of fallible code. A failure is an error of the
--                           program, a panic (overflow, unwrap, index, division by zero), a failed
--                           conversion, a failed account constraint, or a failed external call
--   Word, Word/*            checked arithmetic on u16, u64, u128 and i64: overflow-checks is on in
--                           Cargo.toml, so a sum, difference or product out of range is a panic
--   Constant                constant.rs
--   Ruint, Ruint/Concrete   the 256-bit integers of the crate ruint, a parameter with named laws, and an
--                           instance of it that obeys them
--   Math, Math/*            math/mod.rs: mul_div, div, the two steps of a trade for a quote amount
--   Market, Market/*        state/market.rs: the account, its fees and curves (Market), the quote for a
--                           base amount (Market/Quote), the amounts for a quote amount (Market/Exact)
--                           Market/Monotone, Spread, Interval and Complete are on the size of a quote
--                           and on when it is given, Market/Worth, Fair and Gap on the exact worth of
--                           tokens under a curve, which a quote rounds, Market/Exact/* on that worth
--                           in the two loops for a quote amount, Market/Capped on the largest price
--   SwapTypes, SwapManager  manager/swap_manager.rs: the four kinds of swap
--   SwapManager/*           one swap (Reserve, Complete, Parts, Unpriced, Dust), two (RoundTrip), any
--                           number (Pool)
--   Staking                 state/staking.rs: the accumulator of a market and of a position
--   StakingManager          manager/staking_manager.rs
--   StakingManager/*        the shape of the four operations (Operations) and what they keep (Moves),
--                           what one position and all of them are owed (Accrual, Solvency, Entitled),
--                           how much of a fee comes to them (Delivery), fees that come to nobody (Lost)
--   Vesting                 state/vesting.rs
--   Config                  state/config.rs, state/quote_token_badge.rs, state/referral.rs
--   Program                 the accounts, and the instructions as functions on a World with errors: a
--                           failed instruction leaves no world, as the chain rolls it back
--   Program/Events          events.rs
--   Program/External        what the framework and the token programs do, a parameter: addresses of
--                           programs, mints and token accounts, transfers, metadata
--   Program/Checks          manager/token_manager.rs and the account constraints
--   Program/Admin, Creator, Trade, Stake, Vest, Referral, Creation
--                           instructions/admin, instructions/creator, instructions/swap.rs,
--                           instructions/staking, instructions/vesting, instructions/referrals,
--                           instructions/create_market.rs and create_market_with_spl.rs
--   Program/Dispatch        lib.rs
--   Program/Runs, Runs/Keeps
--                           steps off a chain of instructions that has succeeded
--   Program/Frames          what checks and calls of the token programs leave as it is
--   Program/Payments        what the calls of the token programs come to, as a list of transfers
--   Program/Evolution, Program/Evolution/*
--                           the steps that each kind of account may take, and that each entry point
--                           keeps to them
--   Program/History         sequences of calls
--   Program/Silence         sequences of calls that an account has not signed
--   Program/Stakers, Program/Stakers/*
--                           the stakes of a market among the accounts, the rewards in the log, and
--                           what each entry point does to both
--   Program/Pool, Program/Pool/*
--                           the trades of a market in the log, over sequences of calls
--   Program/Trade/*, Program/Admin/*, Program/Creator/*, Program/Creation/*
--                           proofs on instructions
--   Tests, Tests/*          runs at concrete inputs
--
-- How they interact: an entry point of Program/Dispatch runs a handler, which loads accounts by their
-- address, calls the state's operations, stores the accounts and calls the token programs. Swaps call
-- SwapManager, which calls Market and through it Math; staking and vesting instructions call
-- StakingManager, which reads the pending fees of Market and moves Staking.
--
-- Numbers are natural numbers, every operation on a machine integer checks its range, and times are
-- integers checked against i64. The loops over the price curve recurse on the list of prices that is
-- left, and those from high to low prices on the index, so no fuel is needed. Account data is loaded
-- at the start of an instruction and stored where the handler has changed it.
--
-- Not modelled: the bodies of anchor_lang, anchor_spl, spl_token_2022 and ruint, which are parameters;
-- account sizes, rent and serialisation; the text of error messages; the test utilities under crates
-- and the scripts outside programs.
pub mod Base
pub mod Errors
pub mod Word
pub mod Constant
pub mod Ruint
pub mod Math
pub mod Market
pub mod SwapTypes
pub mod SwapManager
pub mod Staking
pub mod StakingManager
pub mod Vesting
pub mod Config
pub mod Program
pub mod Tests
