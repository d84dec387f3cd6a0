-- ===== src/Wallet/Samples.antt =====
-- Test data of the wallet service: a table of two wallets, and calls that all work.
use tec_core_backend.Base.{ℕ, true, false, none, some, [], ◌∷◌}
use tec_core_backend.Base.Int.{pos, ltb_ℤ}
use tec_core_backend.Base.Table.{Table}
use tec_core_backend.Base.Table.Rows.{rows}
use tec_core_backend.Wallet.Types.{Wallet, State, Env}
use tec_core_backend.Wallet.Credit.{PaymentCompletedEvent}

abbrev pub pi_wallet : ℕ → Wallet
pi_wallet user = record {
  user_id = user;
  wallet_address = none;
  wallet_type = "pi";
  balance = pos 0;
  currency = "PI";
  is_primary = true;
}

abbrev pub wallet_table : Table Wallet
wallet_table = rows

abbrev pub start : State (Table.Rows wallet_table)
start = record {
  wallets = (1, pi_wallet 7) ∷ (0, pi_wallet 5) ∷ [];
  entries = [];
  audits = [];
  processed = [];
}

abbrev pub env : Env
env = record {
  parse_float = λ t. none;
  has_fault = λ x. false;
  is_valid = true;
  supported = "PI" ∷ [];
  upper = λ t. t;
  user_id = none;
  number_less = ltb_ℤ;
}

abbrev pub event : PaymentCompletedEvent
event = record { payment_id = some 9; user_id = some 5; amount = pos 30; currency = "PI" }
