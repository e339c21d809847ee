-- ===== src/System/Snapshots.antt =====
-- The runs that schedulers hold: a stored run with the revision of one of them is that one.
use agola.Prelude.{
  ◌≤◌, String, ◌==◌, eq_iff, ◌≡◌, refl, ap, sym, ◌∙◌, subst, false, none, some, Map, lookup, insert,
  lookup-insert, Bool-cases, inl, inr, arith, if◌then◌else◌,
}
use agola.Types.{Run}
use agola.Store.Rows.{next_meta}
use agola.System.Changes.{IsKeyed, RunChange, same, wrote, added}

-- `r` was read at some time: its row is there, at its revision or a later one, and at its revision it
-- is `r` itself.
pub data ReadBefore (runs : Map Run) (r : Run) : Type 0 where
  read_before :
      (row : Run)
      → lookup r.id runs ≡ some row
      → r.revision ≤ row.revision
      → (row.revision ≡ r.revision → row ≡ r)
      → ReadBefore runs r

pub ReadBefore-now : (runs : Map Run) (r : Run) → lookup r.id runs ≡ some r → ReadBefore runs r
ReadBefore-now runs r l = read_before r l (omega arith) (λ _. refl)

pub lookup_hit :
    (k j : String) (r : Run) (runs : Map Run) → k ≡ j → lookup j (insert k r runs) ≡ some r
lookup_hit k j r runs e =
    lookup-insert k j r runs ∙ ap (λ b. if b then some r else lookup j runs) ((eq_iff k j).1 e)

pub lookup_miss :
    (k j : String) (r : Run) (runs : Map Run)
    → (k == j) ≡ false
    → lookup j (insert k r runs) ≡ lookup j runs
lookup_miss k j r runs e =
    lookup-insert k j r runs ∙ ap (λ b. if b then some r else lookup j runs) e

pub insert-IsKeyed : (r : Run) (runs : Map Run) → IsKeyed runs → IsKeyed (insert r.id r runs)
insert-IsKeyed r runs keyed k x l = elim (Bool-cases (r.id == k)) [
  | inl hit ↦
      let e = (eq_iff r.id k).0 hit in
      let here : some r ≡ some x = sym (lookup_hit r.id k r runs e) ∙ l in
      let at : r ≡ x = cc in ap (λ (y : Run). y.id) (sym at) ∙ e
  | inr miss ↦ keyed k x (sym (lookup_miss r.id k r runs miss) ∙ l)
]

pub RunChange-IsKeyed : (runs runs' : Map Run) → IsKeyed runs → RunChange runs runs' → IsKeyed runs'
RunChange-IsKeyed runs runs' keyed (same e) = subst IsKeyed (sym e) keyed
RunChange-IsKeyed runs runs' keyed (wrote now rc r r' l s e) =
    subst IsKeyed (sym e) (insert-IsKeyed (record r' { meta = next_meta now r.meta }) runs keyed)
RunChange-IsKeyed runs runs' keyed (added r l i e) =
    subst IsKeyed (sym e) (insert-IsKeyed r runs keyed)

-- A read run after a change: the change of its row makes the row newer.
pub RunChange-ReadBefore :
    (runs runs' : Map Run) (x : Run) → RunChange runs runs' → ReadBefore runs x → ReadBefore runs' x
RunChange-ReadBefore runs runs' x (same e) b = subst (λ m. ReadBefore m x) (sym e) b
RunChange-ReadBefore runs runs' x (wrote now rc r r' l s e) (read_before row at le eq) =
    subst (λ m. ReadBefore m x) (sym e)
      (elim (Bool-cases (r.id == x.id)) [
        | inl hit ↦
            let q = (eq_iff r.id x.id).0 hit in
            let w : Run = record r' { meta = next_meta now r.meta } in
            let rows : some r ≡ some row = sym l ∙ ap (λ i. lookup i runs) q ∙ at in
            let row_is : r ≡ row = cc in
            let older : x.revision ≤ r.revision =
              subst (λ (y : Run). x.revision ≤ y.revision) (sym row_is) le in
            read_before w (lookup_hit r.id x.id w runs q) (omega arith) (λ h. absurd (omega arith))
        | inr miss ↦
            read_before row
              (lookup_miss r.id x.id (record r' { meta = next_meta now r.meta }) runs miss ∙ at) le
              eq
      ])
RunChange-ReadBefore runs runs' x (added r l i e) (read_before row at le eq) =
    subst (λ m. ReadBefore m x) (sym e)
      (elim (Bool-cases (r.id == x.id)) [
        | inl hit ↦
            let q = (eq_iff r.id x.id).0 hit in
            let gone : none ≡ some row = sym l ∙ ap (λ i. lookup i runs) q ∙ at in absurd (cc)
        | inr miss ↦ read_before row (lookup_miss r.id x.id r runs miss ∙ at) le eq
      ])
