-- ===== src/Frontend/Transactions/Laws.antt =====
-- What the transactions become on their way to the charts and the table.
use mathlib.Core.Option
use mathlib.Core.List.{foldl}
use easytrade.Base.{ℕ, zero, suc, ◌+◌, ◌≡◌, refl, ap, ◌∙◌, ◌⊎◌, inl, inr, String, Bool}
use easytrade.Base.{Option, none, some, List, [], ◌∷◌, map, find, select, length, get_elem?, Eq}
use easytrade.Base.{
  ◌==◌, string_eq, arith, if◌then◌else◌, Option-cases, Bool-cases, length-map, All, sym,
}
use easytrade.Base.Dict
use easytrade.Base.Dict.{Dict, NodupKeys}
use easytrade.Base.Result.{Result, ok}
use easytrade.Frontend.Transactions.{
  RawTransaction, Transaction, map_status, map_raw_transaction, inside,
}
use easytrade.Frontend.Transactions.{map_from, get_transactions, counted, count_one, Instrument}
use easytrade.Frontend.Transactions.{get_transactions_data, shown_name, rename, transactions_table}

right_shift : (i j : ℕ) → i + suc j ≡ suc i + j
right_shift i j = omega arith

status_known :
    (status : String) → let s = map_status status in (s ≡ "SUCCESS") ⊎ (s ≡ "FAIL") ⊎ (s ≡ "ACTIVE")
unfolding map_status
status_known status = elim (Bool-cases (inside status "finished")) [
  | inl finished ↦ rw finished (inl refl)
  | inr other ↦ elim (Bool-cases (inside status "failed")) [
    | inl failed ↦ rw (other, failed) (inr (inl refl))
    | inr active ↦ rw (other, active) (inr (inr refl))
  ]
]

module _ {N : Type 0} (to_iso : String → Option String) where
  get_elem?-map_from :
      (i j : ℕ) (raws : List (RawTransaction N))
      → get_elem? (map_from to_iso i raws) j
        ≡ Option.map (λ raw. map_raw_transaction to_iso raw (i + j)) (get_elem? raws j)
  unfolding map_from
  get_elem?-map_from i j [] = refl
  get_elem?-map_from i zero (raw ∷ raws) =
      ap (λ k. some (map_raw_transaction to_iso raw k)) (omega arith)
  get_elem?-map_from i (suc j) (raw ∷ raws) =
      rw (right_shift i j) (get_elem?-map_from (suc i) j raws)

  elem_at :
      (i : ℕ) (raws : List (RawTransaction N))
      → get_elem? (map_from to_iso 0 raws) i
        ≡ Option.map (λ raw. map_raw_transaction to_iso raw i) (get_elem? raws i)
  elem_at i raws =
      let no_shift : 0 + i ≡ i = omega arith in rw no_shift at (get_elem?-map_from 0 i raws)

  entry_known :
      (i : ℕ) (found : Option (RawTransaction N)) (t : Transaction N)
      → Option.map (λ raw. map_raw_transaction to_iso raw i) found ≡ some t
      → (t.id ≡ i) × ((t.status ≡ "SUCCESS") ⊎ (t.status ≡ "FAIL") ⊎ (t.status ≡ "ACTIVE"))
  unfolding map_raw_transaction
  entry_known i none t e = absurd (ground arith)
  entry_known i (some raw) t e =
      let same : map_raw_transaction to_iso raw i ≡ t = ground arith in
      (ap (λ u. u.id) (sym same), rw (ap (λ u. u.status) (sym same)) (status_known raw.status))

  -- The transactions of a reply are its transactions in their order, each with its index as its id
  -- and with a status that is one of the three that the table knows.
  get_transactions_lem :
      {E : Type 0} (reply : Result E (List (RawTransaction N))) (raws : List (RawTransaction N))
      (i : ℕ)
      → reply ≡ ok raws
      → let found = get_transactions to_iso reply in
        (get_elem? found i
          ≡ Option.map (λ raw. map_raw_transaction to_iso raw i) (get_elem? raws i))
        × ((t : Transaction N)
            → get_elem? found i ≡ some t
            → (t.id ≡ i) × ((t.status ≡ "SUCCESS") ⊎ (t.status ≡ "FAIL") ⊎ (t.status ≡ "ACTIVE")))
  unfolding get_transactions
  get_transactions_lem reply raws i e =
      let at_index : get_elem? (get_transactions to_iso reply) i
          ≡ Option.map (λ raw. map_raw_transaction to_iso raw i) (get_elem? raws i) =
        rw (e, get_transactions) (elem_at i raws) in
      (at_index, λ t found. entry_known i (get_elem? raws i) t (sym at_index ∙ found))

module _ {K : Type 0} ⦃e : Eq K⦄ where
  abbrev pub occurrences : K → List K → ℕ
  occurrences k ks = length (select (λ j. k == j) ks)

  -- The sum of the counts.
  abbrev pub total : Dict K ℕ → ℕ
  total [] = 0
  total ((_, n) ∷ m) = n + total m

  counted-count_one :
      (k j : K) (m : Dict K ℕ)
      → counted k (count_one m j) ≡ (if k == j then suc (counted k m) else counted k m)
  unfolding count_one
  counted-count_one k j m = ground (arith, Dict.lookup-insert k j (counted j m + 1) m)

  counted-foldl :
      (k : K) (ks : List K) (m : Dict K ℕ)
      → counted k (foldl count_one m ks) ≡ counted k m + occurrences k ks
  counted-foldl k [] m = omega arith
  counted-foldl k (j ∷ ks) m =
      ground (arith, counted-foldl k ks (count_one m j), counted-count_one k j m)

  total-insert : (k : K) (m : Dict K ℕ) → total (Dict.insert k (counted k m + 1) m) ≡ suc (total m)
  unfolding Dict.insert Dict.lookup
  total-insert k [] = refl
  total-insert k ((j, n) ∷ m) = ground (arith, total-insert k m)

  total-foldl : (ks : List K) (m : Dict K ℕ) → total (foldl count_one m ks) ≡ total m + length ks
  unfolding count_one
  total-foldl [] m = omega arith
  total-foldl (k ∷ ks) m = omega (arith, total-foldl ks (count_one m k), total-insert k m)

  NodupKeys-foldl : (ks : List K) (m : Dict K ℕ) → NodupKeys m → NodupKeys (foldl count_one m ks)
  unfolding count_one
  NodupKeys-foldl [] m u = u
  NodupKeys-foldl (k ∷ ks) m u =
      NodupKeys-foldl ks (count_one m k) (Dict.insert-NodupKeys k (counted k m + 1) m u)

  -- The chart's data has each value of the property once, with the number of the transactions that
  -- have it, and the counts add up to the number of all transactions.
  pub get_transactions_data_lem :
      {N : Type 0} (transactions : List (Transaction N)) (property : Transaction N → K)
      → let found = get_transactions_data transactions property in
        NodupKeys found
        × ((k : K) → counted k found ≡ occurrences k (map property transactions))
        × (total found ≡ length transactions)
  unfolding get_transactions_data Dict.lookup
  get_transactions_data_lem transactions property = (
    NodupKeys-foldl (map property transactions) [] tt,
    λ k. omega (arith, counted-foldl k (map property transactions) []),
    omega (arith, total-foldl (map property transactions) [], length-map transactions property),
  )

-- No instrument's name is the id of an instrument.
abbrev pub NamesAreNoIds : List Instrument → Type 0
NamesAreNoIds instruments = All (λ x. find (λ y. y.id == x.name) instruments ≡ none) instruments

All-find :
    {A : Type 0} (P : A → Type 0) (p : A → Bool) (xs : List A) (x : A)
    → All P xs
    → find p xs ≡ some x
    → P x
All-find P p [] x _ e = absurd (ground arith)
All-find P p (y ∷ xs) x (h, hs) e = elim (Bool-cases (p y)) [
  | inl yes_y ↦ let same : y ≡ x = ground arith in rw (sym same) h
  | inr no_y ↦ All-find P p xs x hs (ground arith)
]

shown_name-again :
    (instruments : List Instrument) (name : String)
    → NamesAreNoIds instruments
    → shown_name instruments (shown_name instruments name) ≡ shown_name instruments name
unfolding shown_name
shown_name-again instruments name apart =
    elim (Option-cases (find (λ x. x.id == name) instruments)) [
      | inl missing ↦
          let same : shown_name instruments name ≡ name = rw (missing, shown_name) refl in
          ap (shown_name instruments) same
      | inr (x, there) ↦
          let same : shown_name instruments name ≡ x.name = rw (there, shown_name) refl in
          let final : shown_name instruments x.name ≡ x.name =
            rw (All-find _ _ instruments x apart there, shown_name) refl in
          ap (shown_name instruments) same ∙ final ∙ sym same
    ]

-- If no instrument's name is the id of an instrument, rendering the table again, which starts from
-- the transactions that the first rendering renamed, changes nothing.
transactions_table-again :
    {N : Type 0} (instruments : List Instrument) (transactions : List (Transaction N))
    → NamesAreNoIds instruments
    → transactions_table instruments (transactions_table instruments transactions)
      ≡ transactions_table instruments transactions
unfolding transactions_table rename
transactions_table-again instruments [] apart = refl
transactions_table-again instruments (t ∷ ts) apart = rw (
  shown_name-again instruments t.instrument_name apart,
  transactions_table-again instruments ts apart,
)
