-- ===== src/Base/Orders.antt =====
-- Orders of Booleans and pairs, and orders by a key.
use mathlib.Core.Path.{◌≡◌}
use mathlib.Core.Bool.{Bool, true, false, ◌&&◌, ◌||◌, not}
use native.Mathlib.Omega.{arith}
use nautilus_agents.Base.Ordered.{TotalOrder}

abbrev pub bool_less : Bool → Bool → Bool
bool_less a b = not a && b

pub bool_less-total : (a b : Bool) → bool_less a b ≡ false → bool_less b a ≡ false → a ≡ b
bool_less-total a b h k = ground arith

pub bool_less_trans :
    (a b c : Bool) → bool_less a b ≡ true → bool_less b c ≡ true → bool_less a c ≡ true
bool_less_trans a b c h k = ground arith

pub bool_less_irrefl : (a : Bool) → bool_less a a ≡ false
bool_less_irrefl a = ground arith

instance abbrev pub bool_order : TotalOrder Bool
bool_order = record {
  less = bool_less;
  less_irrefl = bool_less_irrefl;
  less_trans = bool_less_trans;
  less_total = bool_less-total;
}

module _ {A B : Type 0} (o : TotalOrder A) (p : TotalOrder B) where
  abbrev pub pair_less : A × B → A × B → Bool
  pair_less (a, b) (c, d) = o.less a c || (not (o.less c a) && p.less b d)

  pub pair_less_irrefl : (x : A × B) → pair_less x x ≡ false
  pair_less_irrefl (a, b) = ground (arith, o.less_irrefl a, p.less_irrefl b)

  pub pair_less_trans :
      (x y z : A × B) → pair_less x y ≡ true → pair_less y z ≡ true → pair_less x z ≡ true
  pair_less_trans (a, b) (c, d) (e, f) h k = ground (
    arith,
    o.less_trans a c e,
    o.less_trans e a c,
    o.less_trans c e a,
    p.less_trans b d f,
    o.less_total a c,
    o.less_total c e,
  )

  pub pair_less-total : (x y : A × B) → pair_less x y ≡ false → pair_less y x ≡ false → x ≡ y
  pair_less-total (a, b) (c, d) h k = ground (arith, o.less_total a c, p.less_total b d)

  abbrev pub pair_order : TotalOrder (A × B)
  pair_order = record {
    less = pair_less;
    less_irrefl = pair_less_irrefl;
    less_trans = pair_less_trans;
    less_total = pair_less-total;
  }

-- The order of the keys, for a key that determines the value.
abbrev pub key_order :
    {A K : Type 0} (key : A → K) → ((a b : A) → key a ≡ key b → a ≡ b) → TotalOrder K → TotalOrder A
key_order key injective o = record {
  less = λ a b. o.less (key a) (key b);
  less_irrefl = λ a. o.less_irrefl (key a);
  less_trans = λ a b c. o.less_trans (key a) (key b) (key c);
  less_total = λ a b h k. injective a b (o.less_total (key a) (key b) h k);
}
