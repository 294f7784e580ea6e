-- ===== src/SwapManager/Complete.antt =====
-- programs/token-mill/src/manager/swap_manager.rs: trades of a base amount that the market covers.
use sol_token_mill.Word.U64
use sol_token_mill.Base.{arith, if◌then◌else◌, ltb, refl, ℕ, ◌+◌, ◌-◌, ◌<◌, ◌≡◌, ◌≤◌}
use sol_token_mill.Errors.{ok}
use sol_token_mill.Market.{Market}
use sol_token_mill.Market.Complete.{CurveFits, get_quote_complete}
use sol_token_mill.Market.Interval.{sub_fits}
use sol_token_mill.Market.Quote.{get_quote_amount}
use sol_token_mill.Market.Supply.{ReserveValid, circulating_supply-eq}
use sol_token_mill.Math.{down, up}
use sol_token_mill.Ruint.{Laws, Ruint}
use sol_token_mill.SwapManager.{Swapped, settle, swap, swap_amounts}
use sol_token_mill.SwapTypes.{SwapAmountType, SwapType, buy, exact_input, exact_output, sell}

-- The kind of swap that names the base amount.
abbrev pub by_base : SwapType → SwapAmountType
by_base buy = exact_output
by_base sell = exact_input

-- A purchase is covered by the reserve, a sale by the tokens in circulation.
abbrev pub CoversBase : SwapType → Market → ℕ → Type 0
CoversBase buy m n = n ≤ m.base_reserve
CoversBase sell m n = n ≤ m.total_supply - m.base_reserve

add_fits : (a b : ℕ) → a + b < U64.lim → U64.add a b ≡ ok (a + b)
add_fits a b h = ground arith

-- Where the 256-bit integers obey their laws, in a market whose reserve is in order, whose two curves
-- never fall, have eleven prices and are at most `price`, which is above 0, at most 10^18, and at most 10^20
-- in units of the quote token: every trade of a base amount that the market covers succeeds, and for
-- exactly that amount.
pub swap_complete :
    {R : Ruint} (laws : Laws R) (m : Market) (swap_type : SwapType) (n price : ℕ)
    → ReserveValid m
    → CurveFits m exact_input price
    → CurveFits m exact_output price
    → CoversBase swap_type m n
    → (s : Swapped) × (m' : Market) × (swap R m swap_type (by_base swap_type) n ≡ ok (s, m'))
      × (s.base_amount ≡ n)
unfolding swap swap_amounts settle get_quote_amount
swap_complete {R} laws m buy n price v bids asks le =
    let supply = m.total_supply - m.base_reserve in
    let within : supply + n ≤ m.total_supply = omega (arith, v.reserve_le) in
    let (paid, e) = get_quote_complete laws m supply n price exact_output up v asks within in
    let (back, e') = get_quote_complete laws m supply n price exact_input up v bids within in
    let fee = if ltb back paid then paid - back else 0 in
    let s : Swapped = record { base_amount = n; quote_amount = paid; swap_fee = fee } in
    (
      s,
      record m { base_reserve = m.base_reserve - n },
      rw (circulating_supply-eq m v, e, e', sub_fits m.base_reserve n le) refl,
      refl,
    )
swap_complete {R} laws m sell n price v bids asks le =
    let supply = m.total_supply - m.base_reserve - n in
    let within : supply + n ≤ m.total_supply = omega (arith, v.reserve_le) in
    let (paid, e) = get_quote_complete laws m supply n price exact_input down v bids within in
    let s : Swapped = record { base_amount = n; quote_amount = paid; swap_fee = 0 } in
    (
      s,
      record m { base_reserve = m.base_reserve + n },
      rw
          (
            circulating_supply-eq m v,
            sub_fits (m.total_supply - m.base_reserve) n le,
            e,
            add_fits m.base_reserve n (omega (arith, v.reserve_le, v.supply.at_most)),
          )
          refl,
      refl,
    )
