-- ===== src/Method/Keeps.antt =====
-- Rules for a property of the state that a `do` block leaves behind, whether it returns or throws.
use chain_nodelib.Prelude.{◌≡◌, refl}
use chain_nodelib.Method.{Result, ok, err, Method, continue, pure, gets, query, lift, ◌>>=◌}

module _ {S A C : Type 0} (P : S → Type 0) where
  continue_keeps :
      (k : A → Method S C) (r : Result A) (s : S)
      → P s
      → ((a : A) → r ≡ ok a → P (k a s).1)
      → P (continue k r s).1
  continue_keeps k (ok a) s h g = g a refl
  continue_keeps k (err e) s h g = h

  -- Steps that write nothing.
  pub after_query :
      (f : S → Result A) (k : A → Method S C) (s : S)
      → P s
      → ((a : A) → f s ≡ ok a → P (k a s).1)
      → P ((query f >>= k) s).1
  unfolding ◌>>=◌
  after_query f k s h g = continue_keeps k (f s) s h g

  pub after_lift :
      (r : Result A) (k : A → Method S C) (s : S)
      → P s
      → ((a : A) → r ≡ ok a → P (k a s).1)
      → P ((lift r >>= k) s).1
  unfolding ◌>>=◌
  after_lift r k s h g = continue_keeps k r s h g

-- Whatever the method answers, the state behind it has the property if the one before had it.
pub record Keeps {S A : Type 0} (P : S → Type 0) (method : Method S A) : Type 0 where
  pub after : (before : S) → P before → P (method before).1

module _ {S A : Type 0} {P : S → Type 0} where
  -- Methods that write nothing.
  pub Keeps-query : (reads : S → Result A) → Keeps P (query reads)
  unfolding query
  Keeps-query reads = record { after = λ before held. held }

  pub Keeps-gets : (field : S → A) → Keeps P (gets field)
  unfolding gets
  Keeps-gets field = record { after = λ before held. held }

  pub Keeps-lift : (result : Result A) → Keeps P (lift result)
  unfolding lift
  Keeps-lift result = record { after = λ before held. held }

  pub Keeps-pure : (answer : A) → Keeps P (pure answer)
  unfolding pure
  Keeps-pure answer = record { after = λ before held. held }

module _ {S A C : Type 0} {P : S → Type 0} where
  pub Keeps-bind :
      (first : Method S A) (next : A → Method S C)
      → Keeps P first
      → ((answer : A) → Keeps P (next answer))
      → Keeps P (first >>= next)
  unfolding ◌>>=◌
  Keeps-bind first next k l = record {
    after = λ before held.
        let middle = k.after before held in
        continue_keeps P next (first before).0 (first before).1 middle
          λ answer _. (l answer).after (first before).1 middle;
  }

pub ruleset keeps_rules = (Keeps-query, Keeps-gets, Keeps-lift, Keeps-pure, Keeps-bind)
