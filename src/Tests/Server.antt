-- ===== src/Tests/Server.antt =====
-- A Redis kept in a list, which answers every command and returns an iteration in one page.
use quant_api_gateway.Prelude.{
  String, ◌≡◌, refl, sym, ap, ◌∙◌, ◌≢◌, inl, inr, Bool, true, false, ◌&&◌, ◌||◌, Option, none, some,
  List, [], ◌∷◌, arith, str_eq, eq_iff, eq_refl, ◌==◌, if◌then◌else◌, Bool-cases, one_of,
}
use quant_api_gateway.Cache.{Redis}
use quant_api_gateway.Cache.Laws.{IsLawful}
use quant_api_gateway.Cache.Ends.{ScanEnds}
use Prim.Native.Char.{code}

abbrev pub Store : Type 0
Store = List (String × String)

abbrev pub find : Store → String → Option String
find [] j = none
find ((k, v) ∷ s) j = if str_eq k j then some v else find s j

abbrev pub write : String → String → Store → Store
write k v [] = (k, v) ∷ []
write k v ((j, w) ∷ s) = let rest = write k v s in if str_eq j k then (j, v) ∷ s else (j, w) ∷ rest

abbrev pub without : List String → Store → Store
without ks [] = []
without ks ((j, v) ∷ s) = let rest = without ks s in if one_of j ks then rest else (j, v) ∷ rest

-- A glob whose only wildcard is a final star.
abbrev pub glob : String → String → Bool
glob String.[] String.[] = true
glob String.[] (String.◌∷◌ d j) = false
glob (String.◌∷◌ c String.[]) String.[] = code c == 42
glob (String.◌∷◌ c String.[]) (String.◌∷◌ d String.[]) = code c == 42 || code c == code d
glob (String.◌∷◌ c String.[]) (String.◌∷◌ d (String.◌∷◌ e j)) = code c == 42
glob (String.◌∷◌ c (String.◌∷◌ b p)) String.[] = false
glob (String.◌∷◌ c (String.◌∷◌ b p)) (String.◌∷◌ d j) = code c == code d && glob (String.◌∷◌ b p) j

abbrev pub keys_of : String → Store → List String
keys_of p [] = []
keys_of p ((k, v) ∷ s) = let rest = keys_of p s in if glob p k then k ∷ rest else rest

abbrev pub server : Redis
server = record {
  State = Store;
  get = λ k s. (some (find s k), s);
  setex = λ k ttl v s. (some tt, write k v s);
  delete = λ ks s. (some tt, without ks s);
  scan = λ c p s. (some (0, keys_of p s), s);
}

pub find-write :
    (k v j : String) (s : Store) → find (write k v s) j ≡ (if str_eq k j then some v else find s j)
find-write k v j [] = refl
find-write k v j ((i, w) ∷ s) = elim (Bool-cases (str_eq i k)) [
  | inl e ↦ ground (arith, eq_iff i k, eq_iff i j, eq_iff k j)
  | inr e ↦ ground (arith, find-write k v j s, eq_iff i k, eq_iff i j, eq_iff k j)
]

pub find-without :
    (ks : List String) (j : String) (s : Store)
    → find (without ks s) j ≡ (if one_of j ks then none else find s j)
find-without ks j [] = ground arith
find-without ks j ((i, w) ∷ s) = elim (Bool-cases (one_of i ks)) [
  | inl e ↦ elim (Bool-cases (str_eq i j)) [
    | inl f ↦
        let same : i ≡ j = ground (arith, eq_iff i j) in
        rw (e, f) (find-without ks j s ∙ rw (← same, e) refl)
    | inr f ↦ rw (e, f) (find-without ks j s)
  ]
  | inr e ↦ elim (Bool-cases (str_eq i j)) [
    | inl f ↦ let same : i ≡ j = ground (arith, eq_iff i j) in rw (e, f) (rw (← same, e) refl)
    | inr f ↦ rw (e, f) (find-without ks j s)
  ]
]

pub page-holds :
    (p j : String) (s : Store) → find s j ≢ none → glob p j ≡ true → one_of j (keys_of p s) ≡ true
page-holds p j [] there m = absurd (there refl)
page-holds p j ((i, w) ∷ s) there m = elim (Bool-cases (str_eq i j)) [
  | inl f ↦ let same : i ≡ j = ground (arith, eq_iff i j) in rw (same, m) (rw (eq_refl j) refl)
  | inr f ↦
      let later = page-holds p j s (λ absent. there (rw f absent)) m in
      elim (Bool-cases (glob p i)) [ inl g ↦ rw g (rw (f, later) refl) | inr g ↦ rw g later ]
]

pub page-matches : (p j : String) (s : Store) → one_of j (keys_of p s) ≡ true → glob p j ≡ true
page-matches p j [] h = cc
page-matches p j ((i, w) ∷ s) h = elim (Bool-cases (glob p i)) [
  | inl g ↦ elim (Bool-cases (str_eq i j)) [
    | inl f ↦ let same : i ≡ j = ground (arith, eq_iff i j) in ap (glob p) (sym same) ∙ g
    | inr f ↦ page-matches p j s (ground arith)
  ]
  | inr g ↦ page-matches p j s (ground arith)
]

pub true≢false : true ≢ false
true≢false h = cc

abbrev pub server-IsLawful : IsLawful server
server-IsLawful = record {
  lookup = find;
  matches = glob;
  pending = λ c j. true;
  get_value = λ k s v h. cc;
  get_reads = λ k j s. refl;
  setex_writes = λ k ttl v j s h. find-write k v j s;
  setex_others = λ k ttl v j s h. find-write k v j s ∙ rw h refl;
  delete_removes = λ ks j s h. find-without ks j s;
  delete_others = λ ks j s h. find-without ks j s ∙ rw h refl;
  scan_reads = λ c p j s. refl;
  scan_matches =
      λ c p j s c' ks e h. let same : keys_of p s ≡ ks = cc in page-matches p j s (rw same h);
  scan_visits = λ c p j s c' ks e there m visits left.
      let same : keys_of p s ≡ ks = cc in
      let paged : one_of j ks ≡ true = rw (← same) (page-holds p j s there m) in
      absurd (true≢false (sym paged ∙ left));
  pending_start = λ j. refl;
}

abbrev pub server-ScanEnds : ScanEnds server
server-ScanEnds = record { rank = λ c. c; falls = λ c p s c' ks e on. absurd (on cc) }
