-- ===== src/Script/Parser/Sound.antt =====
-- A contract for the actions of the parser (crates/aether-script/src/parser.rs), with one rule for
-- each way to build an action.
use aether_terminal.Prelude.{
  ℕ, zero, suc, ◌+◌, ◌-◌, ◌≤◌, ◌<◌, ◌≡◌, refl, ◌∙◌, Bool, true, false, Option, none, some, List, [],
  ◌∷◌, ◌++◌, length, get_elem?, arith,
}
use aether_terminal.Script.Token.{Token, Span, Spanned}
use aether_terminal.Script.Parser.Monad.{
  M, Message, Parser, ParseError, Outcome, done, failed, panicked, out_of_fuel, pure, continue,
  ◌>>=◌, ◌>>◌, peek, advance, fail, skip, budget, kind, current, indexed,
}

-- From `s` to `s'` the position moves forward, inside the tokens.
pub record Moved (s s' : Parser) : Type 0 where
  pub same : s'.tokens ≡ s.tokens
  pub forward : s.position ≤ s'.position
  pub within : s'.position ≤ length s'.tokens

-- `Ok` has reported nothing and `Err(())` exactly one error; there is no other way to end.
abbrev pub Post : {A : Type 0} → Parser → Outcome A → Parser → Type 0
Post s (done a) s' = Moved s s' × (s'.errors ≡ s.errors)
Post s failed s' = Moved s s' × ((e : ParseError) × (s'.errors ≡ s.errors ++ e ∷ []))
Post s panicked s' = ⊥
Post s out_of_fuel s' = ⊥

pub record SoundAt {A : Type 0} (s : Parser) (m : M A) : Type 0 where
  pub at : s.position ≤ length s.tokens → Post s (m s).0 (m s).1

abbrev pub Sound : {A : Type 0} → M A → Type 0
Sound m = (s : Parser) → SoundAt s m

Moved-trans : {s t u : Parser} → Moved s t → Moved t u → Moved s u
Moved-trans p q = record { same = q.same ∙ p.same; forward = omega arith; within = q.within }

Post-trans :
    {A : Type 0} (s t u : Parser) (o : Outcome A)
    → Moved s t
    → t.errors ≡ s.errors
    → Post t o u
    → Post s o u
Post-trans s t u (done a) p e q = (Moved-trans p q.0, q.1 ∙ e)
Post-trans s t u failed p e q = (Moved-trans p q.0, (q.1.0, rw (← e) q.1.1))
Post-trans s t u panicked p e q = q
Post-trans s t u out_of_fuel p e q = q

module _ {A : Type 0} where
  pub Sound-pure : (a : A) → Sound (pure a)
  Sound-pure a s = record {
    at = λ h. (record { same = refl; forward = omega arith; within = h }, refl);
  }

  pub Sound-fail : (message : Message) → Sound (fail {A = A} message)
  unfolding fail
  Sound-fail message s = record {
    at = λ h. (record { same = refl; forward = omega arith; within = h }, (_, refl));
  }

module _ {A B : Type 0} where
  Post-continue :
      (s s' : Parser) (o : Outcome A) (f : A → M B)
      → Post s o s'
      → ((a : A) → Moved s s' → SoundAt s' (f a))
      → Post s (continue o f s').0 (continue o f s').1
  Post-continue s s' (done a) f p k = Post-trans s s' _ _ p.0 p.1 ((k a p.0).at p.0.within)
  Post-continue s s' failed f p k = p
  Post-continue s s' panicked f p k = p
  Post-continue s s' out_of_fuel f p k = p

  -- The rest of a chain may use that the position has moved forward.
  pub SoundAt-bind :
      (s : Parser) (m : M A) (f : A → M B)
      → SoundAt s m
      → ((a : A) (s' : Parser) → Moved s s' → SoundAt s' (f a))
      → SoundAt s (m >>= f)
  unfolding ◌>>=◌
  SoundAt-bind s m f km kf = record {
    at = λ h. Post-continue s (m s).1 (m s).0 f (km.at h) (λ a moved. kf a (m s).1 moved);
  }

  pub Sound-bind : (m : M A) (f : A → M B) → Sound m → ((a : A) → Sound (f a)) → Sound (m >>= f)
  Sound-bind m f km kf s = SoundAt-bind s m f (km s) (λ a s' moved. kf a s')

module _ {B : Type 0} where
  pub SoundAt-peek :
      (s : Parser) (f : Option Token → M B)
      → SoundAt s (f (kind (current s)))
      → SoundAt s (peek >>= f)
  unfolding peek ◌>>=◌
  SoundAt-peek s f k = record { at = λ h. k.at h }

  pub Sound-peek :
      (f : Option Token → M B)
      → ((s : Parser) (t : Option Token) → kind (current s) ≡ t → SoundAt s (f t))
      → Sound (peek >>= f)
  Sound-peek f k s = SoundAt-peek s f (k s (kind (current s)) refl)

  pub Sound-budget :
      (f : ℕ → M B)
      → ((s : Parser) → SoundAt s (f (suc (length s.tokens - s.position))))
      → Sound (budget >>= f)
  unfolding budget ◌>>=◌
  Sound-budget f k s = record { at = λ h. (k s).at h }

abbrev pub bump : Parser → Parser
bump s = record s { position = s.position + 1 }

get_elem?-lt : {A : Type 0} (xs : List A) (i : ℕ) {a : A} → get_elem? xs i ≡ some a → i < length xs
get_elem?-lt [] i h = cc
get_elem?-lt (x ∷ xs) zero h = omega arith
get_elem?-lt (x ∷ xs) (suc i) h = omega (arith, get_elem?-lt xs i h)

pub kind-some :
    (o : Option (Spanned Token)) (t : Token)
    → kind o ≡ some t
    → (span : Span) × (o ≡ some (t, span))
kind-some none t h = cc
kind-some (some (u, span)) t h = (span, ground arith)

module _ {B : Type 0} where
  -- After a `peek` that found a token, `advance` is in bounds and consumes it.
  pub SoundAt-advance :
      (s : Parser) (g : Spanned Token → M B) (t : Token)
      → kind (current s) ≡ some t
      → ((span : Span) → Moved s (bump s) → SoundAt (bump s) (g (t, span)))
      → SoundAt s (advance >>= g)
  unfolding advance ◌>>=◌
  SoundAt-advance s g t e k =
      let (span, c) = kind-some (current s) t e in
      let moved : s.position < length s.tokens = get_elem?-lt s.tokens s.position c in
      let m : Moved s (bump s) = record {
        same = refl;
        forward = omega arith;
        within = omega arith;
      } in
      record {
        at = λ h. rw (c, indexed) (Post-trans s (bump s) _ _ m refl ((k span m).at m.within));
      }

-- The contract of an action that consumes at least one token, however it ends.
pub record StrictAt {A : Type 0} (s : Parser) (m : M A) : Type 0 where
  pub at : s.position ≤ length s.tokens → Post (bump s) (m s).0 (m s).1

Post-bump : {A : Type 0} (s t : Parser) (o : Outcome A) → Post (bump s) o t → Post s o t
Post-bump s t (done a) p =
    (record { same = p.0.same; forward = omega arith; within = p.0.within }, p.1)
Post-bump s t failed p =
    (record { same = p.0.same; forward = omega arith; within = p.0.within }, p.1)
Post-bump s t panicked p = p
Post-bump s t out_of_fuel p = p

pub StrictAt-SoundAt : {A : Type 0} (s : Parser) (m : M A) → StrictAt s m → SoundAt s m
StrictAt-SoundAt s m k = record { at = λ h. Post-bump s (m s).1 (m s).0 (k.at h) }

module _ {A B : Type 0} where
  pub StrictAt-bind :
      (s : Parser) (m : M A) (f : A → M B)
      → StrictAt s m
      → ((a : A) (s' : Parser) → Moved (bump s) s' → SoundAt s' (f a))
      → StrictAt s (m >>= f)
  unfolding ◌>>=◌
  StrictAt-bind s m f km kf = record {
    at = λ h. Post-continue (bump s) (m s).1 (m s).0 f (km.at h) (λ a moved. kf a (m s).1 moved);
  }

module _ {B : Type 0} where
  pub StrictAt-peek :
      (s : Parser) (f : Option Token → M B)
      → StrictAt s (f (kind (current s)))
      → StrictAt s (peek >>= f)
  unfolding peek ◌>>=◌
  StrictAt-peek s f k = record { at = λ h. k.at h }

  pub StrictAt-advance :
      (s : Parser) (g : Spanned Token → M B) (t : Token)
      → kind (current s) ≡ some t
      → ((span : Span) → SoundAt (bump s) (g (t, span)))
      → StrictAt s (advance >>= g)
  unfolding advance ◌>>=◌
  StrictAt-advance s g t e k =
      let (span, c) = kind-some (current s) t e in
      let moved : s.position < length s.tokens = get_elem?-lt s.tokens s.position c in
      record { at = λ h. rw (c, indexed) ((k span).at (omega arith)) }

module _ {B : Type 0} where
  pub StrictAt-skip :
      (s : Parser) (g : M B) (t : Token)
      → kind (current s) ≡ some t
      → (s.position < length s.tokens → SoundAt (bump s) g)
      → StrictAt s (skip >> g)
  unfolding skip ◌>>=◌
  StrictAt-skip s g t e k =
      let (span, c) = kind-some (current s) t e in
      let moved : s.position < length s.tokens = get_elem?-lt s.tokens s.position c in
      record { at = λ h. (k moved).at (omega arith) }

  pub StrictAt-budget :
      (s : Parser) (f : ℕ → M B)
      → StrictAt s (f (suc (length s.tokens - s.position)))
      → StrictAt s (budget >>= f)
  unfolding budget ◌>>=◌
  StrictAt-budget s f k = record { at = λ h. k.at h }

  pub StrictAt-second :
      (s : Parser) (b : Bool) (f g : M B)
      → b ≡ false
      → StrictAt s g
      → StrictAt s (elim b [ true ↦ f | false ↦ g ])
  StrictAt-second s true f g h k = absurd (cc)
  StrictAt-second s false f g h k = k
