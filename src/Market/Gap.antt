-- ===== src/Market/Gap.antt =====
-- programs/token-mill/src/state/market.rs: the same tokens are worth more at the ask prices than at the
-- bid prices.
use sol_token_mill.Base.{List, [], arith, length, min, sym, ℕ, ◌+◌, ◌-◌, ◌∙◌, ◌∷◌, ◌≡◌, ◌≤◌}
use sol_token_mill.Market.{Market}
use sol_token_mill.Market.Bounds.{normalized}
use sol_token_mill.Market.Fair.{worth, worth_of}
use sol_token_mill.Market.Monotone.{area_mono}
use sol_token_mill.Market.Prices.{Ascending, BidsBelowAsks, CurvesValid, IsAscending}
use sol_token_mill.Market.Worth.{
  part_worth, part_worth-area, worth_from, worth_from-cons, worth_from-nil,
}
use sol_token_mill.SwapTypes.{exact_input, exact_output}

part_gap :
    (bid_0 bid_1 ask_0 ask_1 width x y : ℕ)
    → bid_0 ≤ bid_1
    → ask_0 ≤ ask_1
    → bid_0 ≤ ask_0
    → bid_1 ≤ ask_1
    → x ≤ y
    → y ≤ width
    → part_worth bid_0 bid_1 width y + part_worth ask_0 ask_1 width x
      ≤ part_worth bid_0 bid_1 width x + part_worth ask_0 ask_1 width y
part_gap bid_0 bid_1 ask_0 ask_1 width x y hb ha le0 le1 le fits =
    let parts : y ≡ x + (y - x) = omega arith in
    rw
      (
        parts,
        part_worth-area bid_0 bid_1 width x (y - x),
        part_worth-area ask_0 ask_1 width x (y - x),
      )
      (omega (
        arith,
        area_mono bid_0 bid_1 ask_0 ask_1 width x (y - x) (y - x) hb ha le0 le1 (omega arith)
            (omega arith),
      ))

worth_from-gap :
    (width bid_0 ask_0 : ℕ) (bids asks : List ℕ) (x y : ℕ)
    → Ascending bid_0 bids
    → Ascending ask_0 asks
    → length bids ≡ length asks
    → bid_0 ≤ ask_0
    → BidsBelowAsks bids asks
    → x ≤ y
    → worth_from width bid_0 bids y + worth_from width ask_0 asks x
      ≤ worth_from width bid_0 bids x + worth_from width ask_0 asks y
worth_from-gap width bid_0 ask_0 [] [] x y hb ha len le o h = omega (
  arith,
  worth_from-nil width bid_0 x,
  worth_from-nil width bid_0 y,
  worth_from-nil width ask_0 x,
  worth_from-nil width ask_0 y,
)
worth_from-gap width bid_0 ask_0 [] (a ∷ asks) x y hb ha len le o h = absurd (omega arith)
worth_from-gap width bid_0 ask_0 (b ∷ bids) [] x y hb ha len le o h = absurd (omega arith)
worth_from-gap width bid_0 ask_0 (b ∷ bids) (a ∷ asks) x y hb ha len le o h =
    let part =
      part_gap bid_0 b ask_0 a width (min x width) (min y width) (omega (arith, hb.0))
        (omega (arith, ha.0)) le o.0 (ground arith) (ground arith) in
    let rest =
      worth_from-gap width b a bids asks (x - width) (y - width) hb.1 ha.1 (omega arith) o.0 o.1
        (omega arith) in
    rw
      (
        worth_from-cons width bid_0 b bids y,
        worth_from-cons width bid_0 b bids x,
        worth_from-cons width ask_0 a asks y,
        worth_from-cons width ask_0 a asks x,
      )
      (omega (arith, part, rest))

worth_of-gap :
    (width : ℕ) (bids asks : List ℕ) (x y : ℕ)
    → IsAscending bids
    → IsAscending asks
    → length bids ≡ length asks
    → BidsBelowAsks bids asks
    → x ≤ y
    → worth_of width bids y + worth_of width asks x ≤ worth_of width bids x + worth_of width asks y
worth_of-gap width [] [] x y hb ha len o h = omega arith
worth_of-gap width [] (a ∷ asks) x y hb ha len o h = absurd (omega arith)
worth_of-gap width (b ∷ bids) [] x y hb ha len o h = absurd (omega arith)
worth_of-gap width (b ∷ bids) (a ∷ asks) x y hb ha len o h =
    worth_from-gap width b a bids asks x y hb ha (omega arith) o.0 o.1 h

pub worth-gap :
    (m : Market) (supply supply' : ℕ)
    → CurvesValid m.bid_prices m.ask_prices
    → supply ≤ supply'
    → worth m exact_input supply' + worth m exact_output supply
      ≤ worth m exact_input supply + worth m exact_output supply'
worth-gap m supply supply' c le =
    worth_of-gap m.width_scaled m.bid_prices m.ask_prices (normalized supply) (normalized supply')
      c.bids_ascend c.asks_ascend (c.bids_length ∙ sym c.asks_length) c.ordered (omega (arith, le))
