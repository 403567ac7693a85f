-- ===== src/Router/Precedence/Order.antt =====
-- The order of precedence keys: the results of comparePrecedence are those of a total preorder.
use g_gateway.Base.{
  ◌≡◌, refl, true, false, arith, Bytes, bytes_lt, bytes_lt_irrefl, bytes_lt_trans, bytes_lt-total,
}
use g_gateway.Base.Int.{ℤ, pos, negsuc, ltb_ℤ}
use g_gateway.Router.Precedence.{
  PrecedenceKey, Comparison, higher, lower, same, compare_ints, compare_ids, then_by,
  compare_precedence, at_most,
}

abbrev pub flip : Comparison → Comparison
flip higher = lower
flip lower = higher
flip same = same

-- A comparison whose results agree with each other.
pub record IsPreorder {A : Type 0} (cmp : A → A → Comparison) : Type 0 where
  pub flips : (a b : A) → cmp b a ≡ flip (cmp a b)
  pub trans :
      (a b c : A) → at_most (cmp a b) ≡ true → at_most (cmp b c) ≡ true → at_most (cmp a c) ≡ true

ltb_ℤ_irrefl : (x : ℤ) → ltb_ℤ x x ≡ false
ltb_ℤ_irrefl (pos a) = ground arith
ltb_ℤ_irrefl (negsuc a) = ground arith

ltb_ℤ_asym : (x y : ℤ) → ltb_ℤ x y ≡ true → ltb_ℤ y x ≡ false
ltb_ℤ_asym (pos a) (pos b) h = ground arith
ltb_ℤ_asym (pos a) (negsuc b) h = ground arith
ltb_ℤ_asym (negsuc a) (pos b) h = ground arith
ltb_ℤ_asym (negsuc a) (negsuc b) h = ground arith

-- Being at most is transitive.
ltb_ℤ_trans : (x y z : ℤ) → ltb_ℤ y x ≡ false → ltb_ℤ z y ≡ false → ltb_ℤ z x ≡ false
ltb_ℤ_trans (pos a) (pos b) (pos c) h k = ground arith
ltb_ℤ_trans (pos a) (pos b) (negsuc c) h k = ground arith
ltb_ℤ_trans (pos a) (negsuc b) z h k = ground arith
ltb_ℤ_trans (negsuc a) y (pos c) h k = ground arith
ltb_ℤ_trans (negsuc a) (pos b) (negsuc c) h k = ground arith
ltb_ℤ_trans (negsuc a) (negsuc b) (negsuc c) h k = ground arith

bytes_lt_asym : (s t : Bytes) → bytes_lt s t ≡ true → bytes_lt t s ≡ false
bytes_lt_asym s t h = ground (arith, bytes_lt_trans s t s, bytes_lt_irrefl s)

ints-IsPreorder : IsPreorder compare_ints
ints-IsPreorder = record {
  flips = λ a b. ground (arith, ltb_ℤ_asym a b, ltb_ℤ_asym b a);
  trans = λ a b c h k. ground (arith, ltb_ℤ_trans a b c);
}

ids-IsPreorder : IsPreorder compare_ids
ids-IsPreorder = record {
  flips = λ a b. ground (arith, bytes_lt_asym a b, bytes_lt_asym b a);
  trans = λ a b c h k. ground (
    arith,
    bytes_lt_trans a c b,
    bytes_lt_trans b a c,
    bytes_lt-total a b,
    bytes_lt-total b c,
    bytes_lt_asym a b,
    bytes_lt_asym b c,
    bytes_lt_asym a c,
  );
}

-- What the results of three comparisons, and of their second stage, tell about each other.
flip-then_by : (x y : Comparison) → flip (then_by x y) ≡ then_by (flip x) (flip y)
flip-then_by higher y = refl
flip-then_by lower y = refl
flip-then_by same y = refl

module _ {A : Type 0} (f g : A → A → Comparison) where
  then_by-IsPreorder :
      IsPreorder f → IsPreorder g → IsPreorder (λ (a : A) (b : A). then_by (f a b) (g a b))
  then_by-IsPreorder p q = record {
    flips = λ a b. ground (arith, p.flips a b, q.flips a b);
    trans = λ a b c h k. ground (
      arith,
      p.trans a b c,
      p.trans c a b,
      p.trans b c a,
      p.flips a b,
      p.flips b c,
      p.flips a c,
      q.trans a b c,
    );
  }

on-IsPreorder :
    {A B : Type 0} (f : B → B → Comparison) (k : A → B)
    → IsPreorder f
    → IsPreorder (λ (a : A) (b : A). f (k a) (k b))
on-IsPreorder f k p = record {
  flips = λ a b. p.flips (k a) (k b);
  trans = λ a b c. p.trans (k a) (k b) (k c);
}

int-IsPreorder :
    (f : PrecedenceKey → ℤ) (g : PrecedenceKey → PrecedenceKey → Comparison)
    → IsPreorder g
    → IsPreorder
        (λ (l : PrecedenceKey) (r : PrecedenceKey). then_by (compare_ints (f l) (f r)) (g l r))
int-IsPreorder f g p =
    then_by-IsPreorder (λ (l : PrecedenceKey) (r : PrecedenceKey). compare_ints (f l) (f r)) g
      (on-IsPreorder compare_ints f ints-IsPreorder) p

-- The results in the two directions are opposite, and being at most another key is transitive.
pub compare_precedence-IsPreorder : IsPreorder compare_precedence
unfolding compare_precedence
compare_precedence-IsPreorder =
    int-IsPreorder (λ k. k.priority) _
      (int-IsPreorder (λ k. pos k.host_rank) _
        (int-IsPreorder (λ k. pos k.path_kind) _
          (int-IsPreorder (λ k. pos k.static_segments) _
            (int-IsPreorder (λ k. pos k.pattern_bytes) _
              (int-IsPreorder (λ k. pos k.predicate_count) _
                (on-IsPreorder compare_ids (λ (k : PrecedenceKey). k.route_id) ids-IsPreorder))))))

pub compare_self : (k : PrecedenceKey) → compare_precedence k k ≡ same
compare_self k = ground (arith, compare_precedence-IsPreorder.flips k k)

pub compare_trans :
    (a b c : PrecedenceKey)
    → at_most (compare_precedence a b) ≡ true
    → at_most (compare_precedence b c) ≡ true
    → at_most (compare_precedence a c) ≡ true
compare_trans a b c = compare_precedence-IsPreorder.trans a b c

-- What is not at most another key is above it.
pub compare-total :
    (a b : PrecedenceKey)
    → at_most (compare_precedence a b) ≡ false
    → at_most (compare_precedence b a) ≡ true
compare-total a b h = ground (arith, compare_precedence-IsPreorder.flips a b)
