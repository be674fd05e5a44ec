-- ===== src/Blockchain/Chain/Scanned.antt =====
-- The first pass of `_load_chain`: the index that the headers make, in whatever order they come.
use bitcoin_script.Prelude.{
  ℕ, ◌+◌, ◌%◌, ◌≡◌, ◌≢◌, ◌<◌, ◌⊎◌, inl, inr, refl, sym, ap, ◌∙◌, Bool, false, ◌&&◌, Option, none,
  some, List, [], ◌∷◌, Bytes, length, bytes_eq, bytes_eq_self, bytes_eq→eq, ltb, ◌==◌, Bool-cases,
  Option-cases, arith,
}
use bitcoin_script.Blockchain.Chain.{
  Header, Index, look_up, put_first, note_header, walk_chain_length, gather,
}

abbrev pub IsAmong : {A : Type 0} → A → List A → Type 0
IsAmong a [] = ⊥
IsAmong a (x ∷ xs) = (a ≡ x) ⊎ IsAmong a xs

-- A dict without a key that is put, where another is put.
look_up_here :
    {V : Type 0} (key : Bytes) (v : V) (items : List (Bytes × V))
    → look_up key ((key, v) ∷ items) ≡ some v
unfolding look_up
look_up_here key v items = rw (look_up, bytes_eq_self key) refl

-- Looking up behind a new item: it is that item, or the key is another.
look_up_behind :
    {V : Type 0} (P : Option V → Type 0) (key k : Bytes) (v : V) (items : List (Bytes × V))
    → (k ≡ key → P (some v))
    → P (look_up key items)
    → P (look_up key ((k, v) ∷ items))
unfolding look_up
look_up_behind P key k v items new old = elim (Bool-cases (bytes_eq k key)) [
  | inl e ↦ rw (look_up, e) (new (bytes_eq→eq k key e))
  | inr e ↦ rw (look_up, e) old
]

-- A key that has been put first keeps its value.
pub look_up-put_first :
    {V : Type 0} (P : Option V → Type 0) (key k : Bytes) (v : V) (items : List (Bytes × V))
    → (k ≡ key → look_up key items ≡ none → P (some v))
    → P (look_up key items)
    → P (look_up key (put_first k v items))
unfolding put_first
look_up-put_first P key k v items new old = elim (Option-cases (look_up k items)) [
  | inl e ↦
      rw (put_first, e)
        (look_up_behind P key k v items
          (λ same. new same (ap (λ (c : Bytes). look_up c items) (sym same) ∙ e)) old)
  | inr (w, e) ↦ rw (put_first, e) old
]

-- Nothing yet, or the value that is wanted.
abbrev pub NoOther : {V : Type 0} → V → Option V → Type 0
NoOther v o = (o ≡ none) ⊎ (o ≡ some v)

pub put_first_here :
    {V : Type 0} (key : Bytes) (v : V) (items : List (Bytes × V))
    → NoOther v (look_up key items)
    → look_up key (put_first key v items) ≡ some v
unfolding put_first
put_first_here key v items (inl e) = rw (put_first, e) (look_up_here key v items)
put_first_here key v items (inr e) = rw (put_first, e) e

-- The first of the headers that stand behind its predecessor.
abbrev pub IsFirst : {Place : Type 0} → Header Place → List (Header Place) → Type 0
IsFirst header [] = ⊥
IsFirst header (x ∷ headers) =
    (header ≡ x) ⊎ ((x.prev_hash ≢ header.prev_hash) × IsFirst header headers)

pub IsFirst-IsAmong :
    {Place : Type 0} (header : Header Place) (headers : List (Header Place))
    → IsFirst header headers
    → IsAmong header headers
IsFirst-IsAmong header [] first = first
IsFirst-IsAmong header (x ∷ headers) (inl same) = inl same
IsFirst-IsAmong header (x ∷ headers) (inr (differs, first)) =
    inr (IsFirst-IsAmong header headers first)

module _ {Place : Type 0} where
  unfoldable pub noted : Index Place → List (Header Place) → Index Place
  noted index [] = index
  noted index (header ∷ headers) = noted (note_header index header) headers

  -- Fewer than 50000 headers are all gathered.
  pub gather-noted :
      (fuel target_end scanned : ℕ) (index : Index Place) (headers : List (Header Place))
      → scanned + length headers < 50000
      → gather fuel target_end scanned index headers ≡ noted index headers
  unfolding gather noted
  gather-noted fuel target_end scanned index [] h = refl
  gather-noted fuel target_end scanned index (header ∷ headers) h =
      rw (gather, uncounted (ltb target_end (walk_chain_length fuel (note_header index header))))
        (gather-noted fuel target_end (scanned + 1) (note_header index header) headers
          (omega (arith, h)))
    where
      uncounted : (long : Bool) → ((((scanned + 1) % 50000) == 0) && long) ≡ false
      uncounted long = ground (arith, h)

  -- What a key is looked up as behind the headers, where each of them keeps it.
  pub location-noted :
      (P : Option Place → Type 0) (key : Bytes) (index : Index Place)
      (headers : List (Header Place))
      → ((b : Header Place) → IsAmong b headers → b.block_hash ≡ key → P (some b.place))
      → P (look_up key index.location)
      → P (look_up key (noted index headers).location)
  unfolding noted note_header
  location-noted P key index [] each h = h
  location-noted P key index (x ∷ headers) each h =
      location-noted P key (note_header index x) headers (λ b among. each b (inr among))
        (look_up_behind P key x.block_hash x.place index.location (each x (inl refl)) h)

  pub prev-noted :
      (P : Option Bytes → Type 0) (key : Bytes) (index : Index Place)
      (headers : List (Header Place))
      → ((b : Header Place) → IsAmong b headers → b.prev_hash ≡ key → P (some b.block_hash))
      → P (look_up key index.prev_to_hash)
      → P (look_up key (noted index headers).prev_to_hash)
  unfolding noted note_header
  prev-noted P key index [] each h = h
  prev-noted P key index (x ∷ headers) each h =
      prev-noted P key (note_header index x) headers (λ b among. each b (inr among))
        (look_up-put_first P key x.prev_hash x.block_hash index.prev_to_hash
          (λ same _. each x (inl refl) same) h)

  pub location_found :
      (e : Header Place) (index : Index Place) (headers : List (Header Place))
      → IsAmong e headers
      → ((b : Header Place) → IsAmong b headers → b.block_hash ≡ e.block_hash → b.place ≡ e.place)
      → look_up e.block_hash (noted index headers).location ≡ some e.place
  unfolding noted note_header
  location_found e index [] among unique = elim among [ ]
  location_found e index (x ∷ headers) (inl same) unique =
      location-noted (λ o. o ≡ some e.place) e.block_hash (note_header index x) headers
        (λ b among h. ap some (unique b (inr among) h))
        (ap (λ (y : Header Place). look_up e.block_hash ((y.block_hash, y.place) ∷ index.location))
            (sym same)
          ∙ look_up_here e.block_hash e.place index.location)
  location_found e index (x ∷ headers) (inr among) unique =
      location_found e (note_header index x) headers among (λ b behind. unique b (inr behind))

  -- A successor that is noted stays.
  prev_kept :
      (key hash : Bytes) (index : Index Place) (headers : List (Header Place))
      → look_up key index.prev_to_hash ≡ some hash
      → look_up key (noted index headers).prev_to_hash ≡ some hash
  unfolding noted note_header
  prev_kept key hash index [] there = there
  prev_kept key hash index (x ∷ headers) there = prev_kept key hash (note_header index x) headers (
      look_up-put_first (λ o. o ≡ some hash) key x.prev_hash x.block_hash index.prev_to_hash
        (λ _ missing. cc (missing, there)) there)

  -- The first successor is the one that is found.
  pub prev_found :
      (e : Header Place) (index : Index Place) (headers : List (Header Place))
      → IsFirst e headers
      → look_up e.prev_hash index.prev_to_hash ≡ none
      → look_up e.prev_hash (noted index headers).prev_to_hash ≡ some e.block_hash
  unfolding noted note_header
  prev_found e index [] first missing = absurd first
  prev_found e index (x ∷ headers) (inl same) missing =
      prev_kept e.prev_hash e.block_hash (note_header index x) headers (
        ap
          (λ (y : Header Place).
            look_up e.prev_hash (put_first y.prev_hash y.block_hash index.prev_to_hash))
          (sym same)
        ∙ put_first_here e.prev_hash e.block_hash index.prev_to_hash (inl missing))
  prev_found e index (x ∷ headers) (inr (differs, first)) missing =
      prev_found e (note_header index x) headers first (
        look_up-put_first (λ o. o ≡ none) e.prev_hash x.prev_hash x.block_hash index.prev_to_hash
          (λ same _. absurd (differs same)) missing)
