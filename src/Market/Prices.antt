-- ===== src/Market/Prices.antt =====
-- programs/token-mill/src/state/market.rs: which price curves `check_and_set_prices` accepts, and
-- that they are set once.
use sol_token_mill.Base.{
  List, Option-cases, [], arith, false, get_elem?, inl, inr, length, refl, some, suc, zero, ℕ, ◌<◌,
  ◌↔◌, ◌∷◌, ◌≡◌, ◌≤◌,
}
use sol_token_mill.Constant.{interval_number, max_price, prices_length}
use sol_token_mill.Errors.{err, error, ok, prices_already_set}
use sol_token_mill.Market.{Market, are_prices_set, check_and_set_prices, check_curves, check_prices}

-- Each price of the list lies above the one before it; the first lies above `before`.
abbrev pub Ascending : ℕ → List ℕ → Type 0
Ascending before [] = Unit {0}
Ascending before (p ∷ ps) = (before < p) × Ascending p ps

abbrev pub IsAscending : List ℕ → Type 0
IsAscending [] = Unit {0}
IsAscending (p ∷ ps) = Ascending p ps

-- No bid price lies above the ask price at its index.
abbrev pub BidsBelowAsks : List ℕ → List ℕ → Type 0
BidsBelowAsks (bid ∷ bids) (ask ∷ asks) = (bid ≤ ask) × BidsBelowAsks bids asks
BidsBelowAsks _ _ = Unit {0}

-- The curves that a market may have.
pub record CurvesValid (bids asks : List ℕ) : Type 0 where
  pub bids_length : length bids ≡ prices_length
  pub asks_length : length asks ≡ prices_length
  pub bids_ascend : IsAscending bids
  pub asks_ascend : IsAscending asks
  pub ordered : BidsBelowAsks bids asks
  pub capped : (last : ℕ) → get_elem? asks interval_number ≡ some last → last ≤ max_price

abbrev Accepted : ℕ → ℕ → List ℕ → List ℕ → Type 0
Accepted bid_before ask_before bids asks =
    Ascending bid_before bids × Ascending ask_before asks × BidsBelowAsks bids asks

check_prices_sound :
    (bid_before ask_before : ℕ) (bids asks : List ℕ)
    → length bids ≡ length asks
    → check_prices bid_before ask_before bids asks ≡ ok tt
    → Accepted bid_before ask_before bids asks
unfolding check_prices
check_prices_sound b a [] [] e h = (tt, tt, tt)
check_prices_sound b a [] (ask ∷ asks) e h = absurd (omega arith)
check_prices_sound b a (bid ∷ bids) [] e h = absurd (omega arith)
check_prices_sound b a (bid ∷ bids) (ask ∷ asks) e h =
    ground (arith, check_prices_sound bid ask bids asks (omega arith))

check_prices_complete :
    (bid_before ask_before : ℕ) (bids asks : List ℕ)
    → Accepted bid_before ask_before bids asks
    → check_prices bid_before ask_before bids asks ≡ ok tt
unfolding check_prices
check_prices_complete b a [] asks h = refl
check_prices_complete b a (bid ∷ bids) [] h = refl
check_prices_complete b a (bid ∷ bids) (ask ∷ asks) h =
    ground (arith, check_prices_complete bid ask bids asks)

check_curves_sound :
    (bids asks : List ℕ)
    → length bids ≡ prices_length
    → length asks ≡ prices_length
    → check_curves bids asks ≡ ok tt
    → IsAscending bids × IsAscending asks × BidsBelowAsks bids asks
unfolding check_curves
check_curves_sound [] asks lb la h = absurd (omega arith)
check_curves_sound (bid ∷ bids) [] lb la h = absurd (omega arith)
check_curves_sound (bid ∷ bids) (ask ∷ asks) lb la h =
    ground (arith, check_prices_sound bid ask bids asks (omega arith))

check_curves_complete :
    (bids asks : List ℕ)
    → IsAscending bids
    → IsAscending asks
    → BidsBelowAsks bids asks
    → check_curves bids asks ≡ ok tt
unfolding check_curves
check_curves_complete [] asks hb ha o = refl
check_curves_complete (bid ∷ bids) [] hb ha o = refl
check_curves_complete (bid ∷ bids) (ask ∷ asks) hb ha o =
    ground (arith, check_prices_complete bid ask bids asks)

-- The parts of a call that succeeds.
pub record Acceptance (m m' : Market) (bids asks : List ℕ) : Type 0 where
  pub unset : are_prices_set m ≡ ok false
  pub last : ℕ
  pub last_ask : get_elem? asks interval_number ≡ some last
  pub capped : last ≤ max_price
  pub checked : check_curves bids asks ≡ ok tt
  pub stored : m' ≡ record m { bid_prices = bids; ask_prices = asks }

pub acceptance :
    (m m' : Market) (bids asks : List ℕ)
    → check_and_set_prices m bids asks ≡ ok m'
    → Acceptance m m' bids asks
unfolding check_and_set_prices
acceptance m m' bids asks h = elim (Option-cases (get_elem? asks interval_number)) [
  | inl e ↦ absurd (ground arith)
  | inr (last, e) ↦ record {
    unset = ground arith;
    last = last;
    last_ask = e;
    capped = ground arith;
    checked = ground arith;
    stored = ground arith;
  }
]

pub accepted-CurvesValid :
    (m m' : Market) (bids asks : List ℕ)
    → length bids ≡ prices_length
    → length asks ≡ prices_length
    → Acceptance m m' bids asks
    → CurvesValid bids asks
accepted-CurvesValid m m' bids asks lb la a =
    let (up_bids, up_asks, o) = check_curves_sound bids asks lb la a.checked in
    record {
      bids_length = lb;
      asks_length = la;
      bids_ascend = up_bids;
      asks_ascend = up_asks;
      ordered = o;
      capped = λ last e. ground (arith, a.capped, a.last_ask);
    }

pub get_elem?-some : (ps : List ℕ) (i : ℕ) → i < length ps → (p : ℕ) × (get_elem? ps i ≡ some p)
get_elem?-some [] i h = absurd (omega arith)
get_elem?-some (p ∷ ps) zero h = (p, refl)
get_elem?-some (p ∷ ps) (suc i) h = get_elem?-some ps i (omega arith)

-- In a market whose prices are not set yet, `check_and_set_prices` succeeds exactly on the curves of
-- `PRICES_LENGTH` prices that ascend, with no bid above its ask and the last ask at most
-- `MAX_PRICE`; it then stores the two curves and changes nothing else.
pub check_and_set_prices_iff :
    (m m' : Market) (bids asks : List ℕ)
    → length bids ≡ prices_length
    → length asks ≡ prices_length
    → are_prices_set m ≡ ok false
    → (check_and_set_prices m bids asks ≡ ok m')
      ↔ (CurvesValid bids asks × (m' ≡ record m { bid_prices = bids; ask_prices = asks }))
unfolding check_and_set_prices
check_and_set_prices_iff m m' bids asks lb la unset = (
  (λ h.
      let a = acceptance m m' bids asks h in
      (accepted-CurvesValid m m' bids asks lb la a, a.stored)),
  (λ (v, e).
      let (last, last_ask) = get_elem?-some asks interval_number (omega arith) in
      ground (
        arith,
        v.capped last last_ask,
        check_curves_complete bids asks v.bids_ascend v.asks_ascend v.ordered,
      )),
)

Ascending-get_elem? :
    (before : ℕ) (ps : List ℕ) (i : ℕ) {p : ℕ}
    → Ascending before ps
    → get_elem? ps i ≡ some p
    → before < p
Ascending-get_elem? before [] i h e = cc
Ascending-get_elem? before (q ∷ ps) zero h e = ground arith
Ascending-get_elem? before (q ∷ ps) (suc i) h e = ground (arith, Ascending-get_elem? q ps i h.1 e)

-- In a market whose prices are set, no curves are accepted; and they are set as soon as curves of
-- `PRICES_LENGTH` prices have been accepted. So a market's prices never change once they are set.
pub prices_set_once :
    (m m' : Market) (bids asks bids' asks' : List ℕ)
    → length bids ≡ prices_length
    → length asks ≡ prices_length
    → check_and_set_prices m bids asks ≡ ok m'
    → check_and_set_prices m' bids' asks' ≡ err (error prices_already_set)
unfolding check_and_set_prices are_prices_set
prices_set_once m m' [] asks bids' asks' lb la h = absurd (omega arith)
prices_set_once m m' bids [] bids' asks' lb la h = absurd (omega arith)
prices_set_once m m' (bid ∷ bids) (ask ∷ asks) bids' asks' lb la h =
    let a = acceptance m m' (bid ∷ bids) (ask ∷ asks) h in
    let v = accepted-CurvesValid m m' (bid ∷ bids) (ask ∷ asks) lb la a in
    ground (arith, a.stored, a.last_ask, Ascending-get_elem? ask asks 9 v.asks_ascend a.last_ask)
