-- ===== src/Core/Instrument.antt =====
-- core/instrument.rs: the specifications of instruments and their registry, an association list
-- in place of the map behind the lock.
use propfirm_engine.Base.{
  ℕ, String, Bool, false, not, List, [], ◌∷◌, if◌then◌else◌, same_string, keep, Result, ok,
  invalid_config, refuse_if, ◌>>◌,
}
use propfirm_engine.Base.Int.{pos}
use propfirm_engine.Decimal.{Decimal}

pub record InstrumentSpec (D : Type 0) : Type 0 where
  pub symbol : String
  pub contract_size : D
  pub digits : ℕ
  pub pip_size : D
  pub is_lowcap : Bool

abbrev pub InstrumentRegistry : Type 0 → Type 0
InstrumentRegistry D = List (String × InstrumentSpec D)

module _ {D : Type 0} ⦃d : Decimal D⦄ where
  open d use {nought, mul, div, lt, le, new}

  -- `upper` is `to_uppercase`, which `Symbol::new` and `register` call.
  unfoldable pub fx : (upper : String → String) → String → InstrumentSpec D
  fx upper symbol = record {
    symbol = upper symbol;
    contract_size = new (pos 100_000) 0;
    digits = 5;
    pip_size = new (pos 1) 4;
    is_lowcap = false;
  }

  unfoldable pub fx_jpy : (upper : String → String) → String → InstrumentSpec D
  fx_jpy upper symbol = record {
    symbol = upper symbol;
    contract_size = new (pos 100_000) 0;
    digits = 3;
    pip_size = new (pos 1) 2;
    is_lowcap = false;
  }

  unfoldable pub cfd : (upper : String → String) → String → InstrumentSpec D
  cfd upper symbol = record {
    symbol = upper symbol;
    contract_size = new (pos 1) 0;
    digits = 2;
    pip_size = new (pos 1) 2;
    is_lowcap = false;
  }

  -- `InstrumentSpec::default`
  unfoldable pub default_spec : InstrumentSpec D
  default_spec = record {
    symbol = "<default>";
    contract_size = new (pos 1) 0;
    digits = 5;
    pip_size = new (pos 1) 4;
    is_lowcap = false;
  }

  unfoldable pub units_to_lots : InstrumentSpec D → D → D
  units_to_lots spec units = div units spec.contract_size

  unfoldable pub lots_to_units : InstrumentSpec D → D → D
  lots_to_units spec lots = mul lots spec.contract_size

  unfoldable pub notional : InstrumentSpec D → D → D → D
  notional spec lots price = mul (mul lots spec.contract_size) price

  unfoldable pub register :
      (upper : String → String) → InstrumentRegistry D → InstrumentSpec D → InstrumentRegistry D
  register upper reg spec =
      let key = upper spec.symbol in (key, spec) ∷ keep (λ e. not (same_string e.0 key)) reg

  unfoldable pub get : InstrumentRegistry D → String → InstrumentSpec D
  unfolding default_spec
  get [] symbol = default_spec
  get ((s, spec) ∷ reg) symbol =
      let rest = get reg symbol in if same_string s symbol then spec else rest

  unfoldable pub validate : InstrumentSpec D → Result (Unit {0})
  validate spec = do
    refuse_if (le spec.contract_size nought) invalid_config
    refuse_if (lt spec.pip_size nought) invalid_config
    ok tt
