-- ===== src/Cache/Laws.antt =====
-- What the documentation of Redis promises of the four commands, and what `invalidate_pattern` does
-- on such a server.
use quant_api_gateway.Prelude.{
  ℕ, zero, suc, ◌+◌, String, ◌≡◌, refl, ◌∙◌, ◌≢◌, inl, inr, Bool, true, false, Option, none, some,
  List, [], ◌∷◌, arith, str_eq, ◌==◌, if◌then◌else◌, Bool-cases, Option-cases, one_of, length, ok,
  err,
}
use quant_api_gateway.Cache.{Redis, ok, err, suc, Option-cases}
use quant_api_gateway.Cache.Pattern.{Pass, delete_page, scan_loop, next, after_scan}

-- `lookup` is the text stored under a key, `matches` the glob test of SCAN. A key that is there
-- throughout an iteration is returned by one of its pages: `pending` says which keys a cursor has
-- still to visit. Nothing is promised of a command that fails but that it writes no other key.
pub record IsLawful (R : Redis) : Type 0 where
  pub lookup : R.State → String → Option String
  pub matches : String → String → Bool
  pub pending : ℕ → String → Bool
  pub get_value :
      (k : String) (s : R.State) (v : Option String) → (R.get k s).0 ≡ some v → v ≡ lookup s k
  pub get_reads : (k j : String) (s : R.State) → lookup (R.get k s).1 j ≡ lookup s j
  pub setex_writes :
      (k : String) (ttl : ℕ) (v j : String) (s : R.State)
      → (R.setex k ttl v s).0 ≡ some tt
      → lookup (R.setex k ttl v s).1 j ≡ (if str_eq k j then some v else lookup s j)
  pub setex_others :
      (k : String) (ttl : ℕ) (v j : String) (s : R.State)
      → str_eq k j ≡ false
      → lookup (R.setex k ttl v s).1 j ≡ lookup s j
  pub delete_removes :
      (ks : List String) (j : String) (s : R.State)
      → (R.delete ks s).0 ≡ some tt
      → lookup (R.delete ks s).1 j ≡ (if one_of j ks then none else lookup s j)
  pub delete_others :
      (ks : List String) (j : String) (s : R.State)
      → one_of j ks ≡ false
      → lookup (R.delete ks s).1 j ≡ lookup s j
  pub scan_reads : (c : ℕ) (p j : String) (s : R.State) → lookup (R.scan c p s).1 j ≡ lookup s j
  pub scan_matches :
      (c : ℕ) (p j : String) (s : R.State) (c' : ℕ) (ks : List String)
      → (R.scan c p s).0 ≡ some (c', ks)
      → one_of j ks ≡ true
      → matches p j ≡ true
  pub scan_visits :
      (c : ℕ) (p j : String) (s : R.State) (c' : ℕ) (ks : List String)
      → (R.scan c p s).0 ≡ some (c', ks)
      → lookup s j ≢ none
      → matches p j ≡ true
      → pending c j ≡ true
      → one_of j ks ≡ false
      → (c' ≢ 0) × (pending c' j ≡ true)
  pub pending_start : (j : String) → pending 0 j ≡ true

module _ (R : Redis) (law : IsLawful R) (pattern : String) where
  open law use {lookup, matches, pending}

  -- What the keys outside the pattern hold after a pass.
  abbrev pub Spares : R.State → Pass R pattern → Type 0
  Spares s none = Unit
  Spares s (some (_, t)) = (j : String) → matches pattern j ≡ false → lookup t j ≡ lookup s j

  page_spares :
      (ks : List String) (s : R.State) (j : String)
      → (one_of j ks ≡ true → matches pattern j ≡ true)
      → matches pattern j ≡ false
      → lookup (delete_page R pattern ks s).1 j ≡ lookup s j
  page_spares [] s j in_page out = refl
  page_spares (k ∷ ks) s j in_page out = elim (Bool-cases (one_of j (k ∷ ks))) [
    | inl e ↦ cc (in_page e)
    | inr e ↦ law.delete_others (k ∷ ks) j s e
  ]

  page_removes :
      (ks : List String) (s : R.State) (j : String)
      → (delete_page R pattern ks s).0 ≡ some tt
      → lookup (delete_page R pattern ks s).1 j ≡ (if one_of j ks then none else lookup s j)
  page_removes [] s j done = refl
  page_removes (k ∷ ks) s j done = law.delete_removes (k ∷ ks) j s done

  Spares-trans :
      (s t : R.State) (r : Pass R pattern)
      → ((j : String) → matches pattern j ≡ false → lookup t j ≡ lookup s j)
      → Spares t r
      → Spares s r
  Spares-trans s t none h k = tt
  Spares-trans s t (some (_, u)) h k = λ j out. k j out ∙ h j out

  next-Spares :
      (s : R.State) (x : Option (Unit {0}) × R.State) (c d : ℕ) (again : R.State → Pass R pattern)
      → ((j : String) → matches pattern j ≡ false → lookup x.1 j ≡ lookup s j)
      → Spares x.1 (again x.1)
      → Spares s (next R pattern x c d again)
  next-Spares s (none, t) c d again h k = h
  next-Spares s (some _, t) c d again h k = elim (Bool-cases (c == 0)) [
    | inl e ↦ rw (e, Spares) h
    | inr e ↦ rw (e, Spares) (Spares-trans s t (again t) h k)
  ]

  pub scan_loop-Spares : (fuel c d : ℕ) (s : R.State) → Spares s (scan_loop R pattern fuel c d s)
  unfolding scan_loop
  scan_loop-Spares zero c d s = tt
  scan_loop-Spares (suc fuel) c d s =
      let t = (R.scan c pattern s).1 in
      elim (Option-cases (R.scan c pattern s).0) [
        | inl e ↦ rw (e, after_scan) (λ j out. law.scan_reads c pattern j s)
        | inr ((c', ks), e) ↦
            rw (e, after_scan)
              (next-Spares s (delete_page R pattern ks t) c' (d + length ks) _
                (λ j out.
                  page_spares ks t j (law.scan_matches c pattern j s c' ks e) out
                  ∙ law.scan_reads c pattern j s)
                (scan_loop-Spares fuel c' (d + length ks) (delete_page R pattern ks t).1))
      ]

  -- Every key of the pattern that is there is still to be visited.
  abbrev Visits : ℕ → R.State → Type 0
  Visits c s = (j : String) → lookup s j ≢ none → matches pattern j ≡ true → pending c j ≡ true

  abbrev pub Cleared : Pass R pattern → Type 0
  Cleared (some (ok _, t)) = (j : String) → matches pattern j ≡ true → lookup t j ≡ none
  Cleared (some (err _, t)) = Unit
  Cleared none = Unit

  next-Cleared :
      (x : Option (Unit {0}) × R.State) (c d : ℕ) (again : R.State → Pass R pattern)
      → (x.0 ≡ some tt
          → (j : String) → lookup x.1 j ≢ none
          → matches pattern j ≡ true
          → (c ≢ 0) × (pending c j ≡ true))
      → (Visits c x.1 → Cleared (again x.1))
      → Cleared (next R pattern x c d again)
  next-Cleared (none, t) c d again h k = tt
  next-Cleared (some _, t) c d again h k = elim (Bool-cases (c == 0)) [
    | inl e ↦
        rw (e, Cleared)
          (λ j m. elim (Option-cases (lookup t j)) [
            | inl gone ↦ gone
            | inr (v, there) ↦ absurd ((h refl j (λ absent. cc) m).0 (ground arith))
          ])
    | inr e ↦ rw (e, Cleared) (k (λ j there m. (h refl j there m).1))
  ]

  page-Visits :
      (c : ℕ) (s : R.State) (c' : ℕ) (ks : List String)
      → Visits c s
      → (R.scan c pattern s).0 ≡ some (c', ks)
      → (delete_page R pattern ks (R.scan c pattern s).1).0 ≡ some tt
      → (j : String) → lookup (delete_page R pattern ks (R.scan c pattern s).1).1 j ≢ none
      → matches pattern j ≡ true
      → (c' ≢ 0) × (pending c' j ≡ true)
  page-Visits c s c' ks visits e done j there m =
      let t = (R.scan c pattern s).1 in
      elim (Bool-cases (one_of j ks)) [
        | inl paged ↦ absurd (there (page_removes ks t j done ∙ rw paged refl))
        | inr left ↦
            let kept : lookup (delete_page R pattern ks t).1 j ≡ lookup s j =
              page_removes ks t j done ∙ rw left (law.scan_reads c pattern j s) in
            let was_there : lookup s j ≢ none = λ absent. there (kept ∙ absent) in
            law.scan_visits c pattern j s c' ks e was_there m (visits j was_there m) left
      ]

  pub scan_loop-Cleared :
      (fuel c d : ℕ) (s : R.State) → Visits c s → Cleared (scan_loop R pattern fuel c d s)
  unfolding scan_loop
  scan_loop-Cleared zero c d s visits = tt
  scan_loop-Cleared (suc fuel) c d s visits =
      let t = (R.scan c pattern s).1 in
      elim (Option-cases (R.scan c pattern s).0) [
        | inl e ↦ rw (e, after_scan) tt
        | inr ((c', ks), e) ↦
            rw (e, after_scan)
              (next-Cleared (delete_page R pattern ks t) c' (d + length ks) _
                (page-Visits c s c' ks visits e)
                (scan_loop-Cleared fuel c' (d + length ks) (delete_page R pattern ks t).1))
      ]
