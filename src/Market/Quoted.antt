-- ===== src/Market/Quoted.antt =====
-- programs/token-mill/src/state/market.rs: the parts of a successful call of
-- `get_quote_amount_with_parameters`.
use sol_token_mill.Math
use sol_token_mill.Word.U128
use sol_token_mill.Word.U64
use sol_token_mill.Word
use sol_token_mill.Base.{drop, sym, ℕ, ◌+◌, ◌≡◌}
use sol_token_mill.Constant.{base_precision, scale}
use sol_token_mill.Errors.{ok, ok-injective, on_ok}
use sol_token_mill.Market.{Market, index}
use sol_token_mill.Market.Bounds.{try_from_sound}
use sol_token_mill.Market.Quote.{
  curve_of, get_quote_amount_with_parameters, normalize_base, quote_loop,
}
use sol_token_mill.Math.{Rounding}
use sol_token_mill.Ruint.{Ruint}
use sol_token_mill.SwapTypes.{SwapAmountType}
use sol_token_mill.Word.{power_of_ten}

pub record Quoted (R : Ruint) (m : Market) (supply base_amount : ℕ) (kind : SwapAmountType)
    (rounding : Rounding) (r : ℕ × ℕ) : Type 0 where
  pub total : ℕ
  pub total_eq : normalize_base supply ≡ ok total
  pub left0 : ℕ
  pub left0_eq : normalize_base base_amount ≡ ok left0
  pub i : ℕ
  pub interval : Word.div total m.width_scaled ≡ ok i
  pub used : ℕ
  pub rest : Word.rem total m.width_scaled ≡ ok used
  pub price_0 : ℕ
  pub price : index (curve_of m kind) i ≡ ok price_0
  pub left : ℕ
  pub quote : ℕ
  pub loop :
      quote_loop R rounding m.width_scaled price_0 (drop (i + 1) (curve_of m kind)) used left0 0
      ≡ ok (left, quote)
  pub scaled : ℕ
  pub scaled_eq : U128.mul left base_precision ≡ ok scaled
  pub unswapped : ℕ
  pub unswapped_eq : Math.div scaled scale rounding ≡ ok unswapped
  pub base : ℕ
  pub swapped : Word.sub base_amount unswapped ≡ ok base
  pub precision : ℕ
  pub precision_eq : power_of_ten m.quote_token_decimals ≡ ok precision
  pub paid_scaled : ℕ
  pub paid_scaled_eq : U128.mul quote precision ≡ ok paid_scaled
  pub paid : ℕ
  pub paid_eq : Math.div paid_scaled scale rounding ≡ ok paid
  pub result : r ≡ (base, paid)

pub quoted :
    (R : Ruint) (m : Market) (supply base_amount : ℕ) (kind : SwapAmountType) (rounding : Rounding)
    (r : ℕ × ℕ)
    → get_quote_amount_with_parameters R m supply base_amount kind rounding ≡ ok r
    → Quoted R m supply base_amount kind rounding r
unfolding get_quote_amount_with_parameters
quoted R m supply base_amount kind rounding r h =
    on_ok (normalize_base supply) h λ total total_eq h1.
      on_ok (normalize_base base_amount) h1 λ left0 left0_eq h2.
        on_ok (Word.div total m.width_scaled) h2 λ d ed h3.
          on_ok (Word.try_from U64.lim d) h3 λ i ei h4.
            on_ok (Word.rem total m.width_scaled) h4 λ used rest h5.
              on_ok (index (curve_of m kind) i) h5 λ price_0 price h6.
                on_ok
                  (quote_loop R rounding m.width_scaled price_0 (drop (i + 1) (curve_of m kind))
                    used left0 0)
                  h6
                  λ out loop h7. on_ok (U128.mul out.0 base_precision) h7 λ scaled scaled_eq h8.
                    on_ok (Math.div scaled scale rounding) h8 λ unswapped unswapped_eq h9.
                      on_ok (Word.sub base_amount unswapped) h9 λ base swapped h10.
                        on_ok (power_of_ten m.quote_token_decimals) h10 λ precision pe h11.
                          on_ok (U128.mul out.1 precision) h11 λ paid_scaled pse h12.
                            on_ok (Math.div paid_scaled scale rounding) h12 λ paid paid_eq h13.
                              record {
                                total = total;
                                total_eq = total_eq;
                                left0 = left0;
                                left0_eq = left0_eq;
                                i = i;
                                interval = rw (try_from_sound d ei) ed;
                                used = used;
                                rest = rest;
                                price_0 = price_0;
                                price = price;
                                left = out.0;
                                quote = out.1;
                                loop = loop;
                                scaled = scaled;
                                scaled_eq = scaled_eq;
                                unswapped = unswapped;
                                unswapped_eq = unswapped_eq;
                                base = base;
                                swapped = swapped;
                                precision = precision;
                                precision_eq = pe;
                                paid_scaled = paid_scaled;
                                paid_scaled_eq = pse;
                                paid = paid;
                                paid_eq = paid_eq;
                                result = sym (ok-injective h13);
                              }
