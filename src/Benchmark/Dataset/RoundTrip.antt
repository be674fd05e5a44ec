-- ===== src/Benchmark/Dataset/RoundTrip.antt =====
-- A dataset that is saved, and loaded again.
use bitcoin_script.Prelude.{
  ◌≡◌, refl, sym, ap, ◌∙◌, Bool, true, false, Option, none, some, List, [], ◌∷◌, map, Bytes,
  bytes_eq, inl, inr, if◌then◌else◌,
}
use bitcoin_script.Prelude.Int.{ℤ}
use bitcoin_script.Errors.{ok}
use bitcoin_script.Blockchain.Chain.{look_up, put_first}
use bitcoin_script.Blockchain.Chain.Scanned.{IsAmong, NoOther, look_up-put_first, put_first_here}
use bitcoin_script.Benchmark.{BenchmarkInput}
use bitcoin_script.Benchmark.Dataset.{
  Dataset, Entry, inline, table, entry_of, add_entries, without_txdata, save_dataset, both_or_none,
  with_entry, normalized_all, fill_prevouts, filled, load_dataset,
}

look_up-add_entries :
    (P : Option Entry → Type 0) (key : Bytes) (txdata : List (Bytes × Entry))
    (inputs : List BenchmarkInput)
    → ((b : BenchmarkInput) → IsAmong b inputs → b.txid ≡ key → P (some (entry_of b)))
    → P (look_up key txdata)
    → P (look_up key (add_entries txdata inputs))
unfolding add_entries
look_up-add_entries P key txdata [] each h = h
look_up-add_entries P key txdata (x ∷ inputs) each h =
    look_up-add_entries P key (put_first x.txid (entry_of x) txdata) inputs
      (λ b among. each b (inr among))
      (look_up-put_first P key x.txid (entry_of x) txdata (λ same _. each x (inl refl) same) h)

-- The entry of an input's transaction, where the inputs of that transaction agree.
entry_found :
    (e : BenchmarkInput) (txdata : List (Bytes × Entry)) (inputs : List BenchmarkInput)
    → IsAmong e inputs
    → ((b : BenchmarkInput) → IsAmong b inputs → b.txid ≡ e.txid → entry_of b ≡ entry_of e)
    → NoOther (entry_of e) (look_up e.txid txdata)
    → look_up e.txid (add_entries txdata inputs) ≡ some (entry_of e)
unfolding add_entries
entry_found e txdata [] among agree other = elim among [ ]
entry_found e txdata (x ∷ inputs) (inl same) agree other =
    look_up-add_entries (λ o. o ≡ some (entry_of e)) e.txid (put_first x.txid (entry_of x) txdata)
      inputs (λ b among h. ap some (agree b (inr among) h))
      (ap (λ (y : BenchmarkInput). look_up e.txid (put_first y.txid (entry_of y) txdata)) (sym same)
        ∙ put_first_here e.txid (entry_of e) txdata other)
entry_found e txdata (x ∷ inputs) (inr among) agree other =
    entry_found e (put_first x.txid (entry_of x) txdata) inputs among
      (λ b behind. agree b (inr behind))
      (look_up-put_first (NoOther (entry_of e)) e.txid x.txid (entry_of x) txdata
        (λ h _. inr (ap some (agree x (inl refl) h))) other)

-- What version 3 reads of an entry.
abbrev read_entry : Entry → Bytes × Option (List Bytes × List ℤ)
read_entry (inline tx) = (tx, none)
read_entry (table tx spks amounts) = (tx, both_or_none spks amounts)

read_item : Bytes × Entry → Bytes × (Bytes × Option (List Bytes × List ℤ))
read_item (key, entry) = (key, read_entry entry)

normalized_all-ok :
    (txdata : List (Bytes × Entry)) → normalized_all true txdata ≡ ok (map read_item txdata)
unfolding normalized_all read_item
normalized_all-ok [] = refl
normalized_all-ok ((key, inline tx) ∷ txdata) =
    ap (with_entry key (ok (tx, none))) (normalized_all-ok txdata)
normalized_all-ok ((key, table tx spks amounts) ∷ txdata) =
    ap (with_entry key (ok (tx, both_or_none spks amounts))) (normalized_all-ok txdata)

look_up-read_item :
    (key : Bytes) (txdata : List (Bytes × Entry)) (entry : Entry)
    → look_up key txdata ≡ some entry
    → look_up key (map read_item txdata) ≡ some (read_entry entry)
unfolding look_up read_item
look_up-read_item key [] entry h = absurd (cc h)
look_up-read_item key ((k, other) ∷ txdata) entry h =
    by_key (bytes_eq k key) h (look_up-read_item key txdata entry)
  where
    read_option : Option Entry → Option (Bytes × Option (List Bytes × List ℤ))
    read_option none = none
    read_option (some e) = some (read_entry e)

    by_key :
        {found : Option Entry} {read : Option (Bytes × Option (List Bytes × List ℤ))} (same : Bool)
        → (if same then some other else found) ≡ some entry
        → (found ≡ some entry → read ≡ some (read_entry entry))
        → (if same then some (read_entry other) else read) ≡ some (read_entry entry)
    by_key true h later = ap read_option h
    by_key false h later = later h

-- The scripts and the amounts are both there, or neither.
abbrev pub IsPaired : Option (List Bytes) → Option (List ℤ) → Type 0
IsPaired none none = Unit {0}
IsPaired none (some amounts) = ⊥
IsPaired (some spks) none = ⊥
IsPaired (some spks) (some amounts) = Unit {0}

fill_prevouts-both_or_none :
    (tx : Bytes) (spks : Option (List Bytes)) (amounts : Option (List ℤ))
    → IsPaired spks amounts
    → fill_prevouts none none (some (tx, both_or_none spks amounts)) ≡ (spks, amounts)
fill_prevouts-both_or_none tx none none paired = refl
fill_prevouts-both_or_none tx none (some amounts) paired = elim paired [ ]
fill_prevouts-both_or_none tx (some spks) none paired = elim paired [ ]
fill_prevouts-both_or_none tx (some spks) (some amounts) paired = refl

filled-without_txdata :
    (inp : BenchmarkInput)
    → IsPaired inp.all_prevout_scriptpubkeys inp.all_prevout_amounts
    → filled (without_txdata inp) (some (read_entry (entry_of inp))) ≡ inp
filled-without_txdata inp paired =
    ap
      (λ (p : Option (List Bytes) × Option (List ℤ)). record inp {
        all_prevout_scriptpubkeys = p.0;
        all_prevout_amounts = p.1;
      })
      (fill_prevouts-both_or_none inp.tx_serialized inp.all_prevout_scriptpubkeys
        inp.all_prevout_amounts paired)

map_among :
    {A : Type 0} (f : A → A) (xs : List A) → ((x : A) → IsAmong x xs → f x ≡ x) → map f xs ≡ xs
map_among f [] same = refl
map_among f (x ∷ xs) same = cc (same x (inl refl), map_among f xs (λ y among. same y (inr among)))

-- A dataset that is saved and loaded has the same inputs in the same order, and the same header with the
-- version 3, if the inputs that share a txid share the transaction and its prevouts, and every input has
-- both the scripts and the amounts of the prevouts, or neither.
pub load_dataset-save_dataset :
    {H : Type 0} (dataset : Dataset H)
    → ((a b : BenchmarkInput)
        → IsAmong a dataset.inputs
        → IsAmong b dataset.inputs
        → b.txid ≡ a.txid
        → entry_of b ≡ entry_of a)
    → ((a : BenchmarkInput)
        → IsAmong a dataset.inputs
        → IsPaired a.all_prevout_scriptpubkeys a.all_prevout_amounts)
    → load_dataset (save_dataset dataset)
      ≡ ok (record dataset { header = record dataset.header { version = some 3 } })
unfolding load_dataset save_dataset look_up
load_dataset-save_dataset dataset agree paired =
    rw (load_dataset, save_dataset, normalized_all-ok (add_entries [] dataset.inputs))
      (ap
        (λ inputs.
          ok (record { inputs = inputs; header = record dataset.header { version = some 3 } }))
        (map_map dataset.inputs ∙ map_among reload dataset.inputs reloaded))
  where
    reload : BenchmarkInput → BenchmarkInput
    reload inp =
        filled (without_txdata inp)
          (look_up inp.txid (map read_item (add_entries [] dataset.inputs)))

    reloaded : (inp : BenchmarkInput) → IsAmong inp dataset.inputs → reload inp ≡ inp
    reloaded inp among =
        ap (filled (without_txdata inp)) (
          look_up-read_item inp.txid (add_entries [] dataset.inputs) (entry_of inp)
            (entry_found inp [] dataset.inputs among (λ b. agree inp b among) (inl refl)))
        ∙ filled-without_txdata inp (paired inp among)

    map_map :
        (inputs : List BenchmarkInput)
        → map
            (λ (inp : BenchmarkInput).
              filled inp (look_up inp.txid (map read_item (add_entries [] dataset.inputs))))
            (map without_txdata inputs)
          ≡ map reload inputs
    map_map [] = refl
    map_map (inp ∷ inputs) = ap (λ rest. reload inp ∷ rest) (map_map inputs)
