-- ===== src/SwapTypes.antt =====
-- The two enums of programs/token-mill/src/manager/swap_manager.rs.
pub data SwapType : Type 0 where
  buy sell : SwapType

pub data SwapAmountType : Type 0 where
  exact_input exact_output : SwapAmountType
