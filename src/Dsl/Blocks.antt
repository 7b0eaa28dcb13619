-- ===== src/Dsl/Blocks.antt =====
-- The blocks of a plan that parses.
use tile_mem.Common.{
  str_eq, Option-cases, keep, All, Error, dsl_error, Result, err, ok, ◌>>=◌, check_each, >>=-eq-ok,
  >>-eq-ok, ok-injective, String, ◌≡◌, refl, ap, ◌∙◌, subst, inl, inr, Option, none, List, [], ◌∷◌,
}
use tile_mem.Values.{Value}
use tile_mem.Dsl.{required_blocks, DslBlock, required_block, ParseState, parse_lines, parse_tmem}

check_each-All :
    {A : Type 0} (f : A → Result (Unit {0})) (xs : List A)
    → check_each f xs ≡ ok tt
    → All (λ x. f x ≡ ok tt) xs
unfolding check_each
check_each-All f [] h = tt
check_each-All f (x ∷ xs) h =
    let (e, e') = >>-eq-ok (f x) (check_each f xs) h in (e, check_each-All f xs e')

no_value : {A B : Type 0} (e : Error) (a : A) → err e ≡ ok a → B
no_value e a h = cc

-- What `parse_tmem` checks of a kind of block.
abbrev check_kind : {F : Type 0} → List (DslBlock F) → String → Result (Unit {0})
check_kind blocks kind = required_block kind blocks >>= λ block. ok tt

module _ {F : Type 0} where
  -- Each of the eight kinds of block stands in a plan that parses, and stands there once.
  unfoldable pub HasBlocks : List (DslBlock F) → Type 0
  HasBlocks blocks =
      All (λ kind. (block : DslBlock F) × (keep (λ b. str_eq b.kind kind) blocks ≡ block ∷ []))
        required_blocks

  required_block-once :
      (kind : String) (blocks : List (DslBlock F)) (block : DslBlock F)
      → required_block kind blocks ≡ ok block
      → keep (λ b. str_eq b.kind kind) blocks ≡ block ∷ []
  unfolding required_block
  required_block-once kind blocks block h = once (keep (λ b. str_eq b.kind kind) blocks) refl
    where
      once :
          (ks : List (DslBlock F))
          → keep (λ b. str_eq b.kind kind) blocks ≡ ks
          → keep (λ b. str_eq b.kind kind) blocks ≡ block ∷ []
      once [] e = no_value (dsl_error "missing required block") block (rw (required_block, e) at h)
      once (b ∷ []) e = e ∙ ap (λ x. x ∷ []) (ok-injective (rw (required_block, e) at h))
      once (b ∷ c ∷ ds) e =
          no_value (dsl_error "duplicate block kind") block (rw (required_block, e) at h)

  finished :
      (kinds : List String) (blocks : List (DslBlock F))
      → All (λ kind. check_kind blocks kind ≡ ok tt) kinds
      → All
          (λ kind. (block : DslBlock F) × (keep (λ b. str_eq b.kind kind) blocks ≡ block ∷ []))
          kinds
  finished [] blocks h = tt
  finished (kind ∷ kinds) blocks (h, hs) =
      let (block, e, _) = >>=-eq-ok (required_block kind blocks) _ h in
      ((block, required_block-once kind blocks block e), finished kinds blocks hs)

module _ {F : Type 0} (lower : String → String) (literal_eval : String → Option (Value F)) where
  -- In the blocks of a plan that parses, each of the eight kinds stands exactly once.
  pub parse_tmem-HasBlocks :
      (lines : List String) (blocks : List (DslBlock F))
      → parse_tmem lower literal_eval lines ≡ ok blocks
      → HasBlocks blocks
  unfolding parse_tmem HasBlocks
  parse_tmem-HasBlocks lines blocks h =
      let start : ParseState F = record { blocks = []; current = none } in
      let (s, e, h') = >>=-eq-ok (parse_lines lower literal_eval 1 lines start) _ h in
      elim (Option-cases s.current) [
        | inr (block, open_still) ↦
            no_value (dsl_error "unterminated block") blocks (rw open_still at h')
        | inl closed ↦
            let (checks, same) =
              >>-eq-ok (check_each (check_kind s.blocks) required_blocks) (ok s.blocks)
                (rw closed at h') in
            subst HasBlocks (ok-injective same) (
              finished required_blocks s.blocks
                (check_each-All (check_kind s.blocks) required_blocks checks))
      ]
