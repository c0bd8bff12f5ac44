-- ===== src/Decimal.antt =====
-- `github.com/shopspring/decimal`, which the program imports: the operations that the models use are
-- a parameter of them, and so are the documented laws that a theorem relies on. A value of `Number`
-- is a decimal up to `Equal`.
pub mod Extremes
use nyyu_market.Prelude.{
  ℕ, zero, suc, ◌+◌, ◌-◌, ◌*◌, ◌/◌, ◌≡◌, refl, ◌↔◌, Bool, true, false, arith, ltb, ◌==◌, ==_iff,
}

pub record Decimal : Type 1 where
  pub Number : Type 0
  pub zero_value : Number
  pub add : Number → Number → Number
  pub sub : Number → Number → Number
  pub mul : Number → Number → Number
  pub div : Number → Number → Number
  pub greater_than : Number → Number → Bool
  pub less_than : Number → Number → Bool
  pub is_zero : Number → Bool
  pub new_from_int : ℕ → Number

-- Addition is exact, and `Sub` undoes it.
pub record DecimalSums (d : Decimal) : Type 0 where
  pub add_comm : (a b : d.Number) → d.add a b ≡ d.add b a
  pub add_assoc : (a b c : d.Number) → d.add (d.add a b) c ≡ d.add a (d.add b c)
  pub zero-add : (a : d.Number) → d.add d.zero_value a ≡ a
  pub sub-add : (a b : d.Number) → d.sub (d.add a b) b ≡ a

-- The comparisons read one total order.
pub record DecimalOrder (d : Decimal) : Type 0 where
  pub greater_than-less_than : (a b : d.Number) → d.greater_than a b ≡ d.less_than b a
  pub less_than_irrefl : (a : d.Number) → d.less_than a a ≡ false
  pub le_trans :
      (a b c : d.Number)
      → d.less_than b a ≡ false
      → d.less_than c b ≡ false
      → d.less_than c a ≡ false
  pub le_of_lt : (a b : d.Number) → d.less_than a b ≡ true → d.less_than b a ≡ false
  pub is_zero_iff : (a : d.Number) → (d.is_zero a ≡ true) ↔ (a ≡ d.zero_value)

-- Products with zero.
pub record DecimalProducts (d : Decimal) : Type 0 where
  pub zero-mul : (a : d.Number) → d.mul d.zero_value a ≡ d.zero_value

-- Non-negative multiples of a smallest unit, an instance at which the sets of laws hold.
abbrev pub units : Decimal
units = record {
  Number = ℕ;
  zero_value = 0;
  add = ◌+◌;
  sub = ◌-◌;
  mul = ◌*◌;
  div = ◌/◌;
  greater_than = λ a b. ltb b a;
  less_than = ltb;
  is_zero = λ a. a == 0;
  new_from_int = λ n. n;
}

pub units-DecimalSums : DecimalSums units
units-DecimalSums = record {
  add_comm = λ a b. omega arith;
  add_assoc = λ a b c. omega arith;
  zero-add = λ a. omega arith;
  sub-add = λ a b. omega arith;
}

pub units-DecimalOrder : DecimalOrder units
units-DecimalOrder = record {
  greater_than-less_than = λ a b. refl;
  less_than_irrefl = λ a. ground arith;
  le_trans = λ a b c h k. ground arith;
  le_of_lt = λ a b h. ground arith;
  is_zero_iff = λ a. ==_iff a 0;
}

pub units-DecimalProducts : DecimalProducts units
units-DecimalProducts = record { zero-mul = λ a. omega arith }
