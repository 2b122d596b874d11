-- ===== src/Server/TaskManager/Pages.antt =====
-- Paging through `tasks/list`.
use cxxmcp.Prelude.{
  ℕ, zero, suc, ◌+◌, ◌-◌, ◌%◌, ◌^◌, ◌≤◌, ◌<◌, ◌≡◌, refl, sym, ap, ◌∙◌, min, true, false, inl, inr,
  Bool-cases, Option-cases, map, Bytes, Option, none, some, List, [], ◌∷◌, ◌++◌, arith, ok, err,
  if◌then◌else◌, length, take, drop, ltb, ◌==◌, take-append-drop, length-drop,
}
use cxxmcp.Prelude.Decimal.{to_string}
use cxxmcp.Prelude.Dict.{Dict, find}
use cxxmcp.Server.TaskManager.State.{TaskRecord, Task, Table, Processor}
use cxxmcp.Server.TaskManager.Cursor.{parse_task_list_cursor, parse-to_string, max_size}
use cxxmcp.Server.TaskManager.Keys.{mem, is_some, Distinct, mem_self}
use cxxmcp.Server.TaskManager.Invariant.{IsSound}
use cxxmcp.Server.TaskManager.Operations.{reply}
use cxxmcp.Server.TaskManager.Methods.{tasks_of, list_page}

-- The size of a page where the option says 0.
abbrev pub effective : ℕ → ℕ → ℕ
effective size total = if size == 0 then total else size

take_all {ℓ} : {A : Type ℓ} (n : ℕ) (xs : List A) → length xs ≤ n → take n xs ≡ xs
take_all zero [] h = refl
take_all zero (x ∷ xs) h = absurd (omega arith)
take_all (suc n) [] h = refl
take_all (suc n) (x ∷ xs) h = ap (◌∷◌ x) (take_all n xs (omega arith))

drop-drop {ℓ} : {A : Type ℓ} (m n : ℕ) (xs : List A) → drop n (drop m xs) ≡ drop (m + n) xs
drop-drop zero n xs = let e : 0 + n ≡ n = omega arith in rw e
drop-drop (suc m) zero [] = let e : suc m + 0 ≡ suc m = omega arith in rw e
drop-drop (suc m) (suc n) [] = let e : suc m + suc n ≡ suc (m + suc n) = omega arith in rw e
drop-drop (suc m) n (x ∷ xs) =
    let e : suc m + n ≡ suc (m + n) = omega arith in rw e (drop-drop m n xs)

module _ {Json : Type 0} where
  -- The snapshot in the record of `id`.
  abbrev pub snapshot_in : Dict (TaskRecord Json) → Bytes → Option (Task Json)
  snapshot_in tasks id = elim (find id tasks) [ none ↦ none | some r ↦ some r.task ]

  -- A client that asks for pages of an unchanged table until there is no next cursor, at most
  -- `rounds` of them; `none` if it is refused or is not through by then.
  pub walk : ℕ → Option Bytes → ℕ → Table Json → Option (List (Task Json))
  walk zero cursor size t = none
  walk (suc rounds) cursor size t = elim (parse_task_list_cursor cursor) [
    | err e ↦ none
    | ok offset ↦ elim (list_page offset size t) [
      | reply (ok page) ↦ elim page.next_cursor [
        | none ↦ some page.tasks
        | some next ↦ elim (walk rounds (some next) size t) [
          | none ↦ none
          | some more ↦ some (page.tasks ++ more)
        ]
      ]
      | _ ↦ none
    ]
  ]

  tasks_of-append :
      (tasks : Dict (TaskRecord Json)) (xs ys : List Bytes)
      → tasks_of tasks (xs ++ ys) ≡ tasks_of tasks xs ++ tasks_of tasks ys
  unfolding tasks_of
  tasks_of-append tasks [] ys = refl
  tasks_of-append tasks (x ∷ xs) ys = ground (arith, tasks_of-append tasks xs ys)

  module _ (offset size : ℕ) (t : Table Json) (inside : offset ≤ length t.order)
      (fits : effective size (length t.order) + length t.order ≤ max_size) where
    abbrev step_size : ℕ
    step_size = effective size (length t.order)

    start_lem : min offset (length t.order) ≡ offset
    start_lem = omega arith

    end_lem : (offset + step_size) % 2 ^ 64 ≡ offset + step_size
    end_lem = omega arith

    list_page_last :
        length t.order ≤ offset + step_size
        → list_page offset size t
          ≡ reply (
              ok (record {
                tasks = tasks_of t.tasks (drop offset t.order);
                next_cursor = none;
                total = length t.order;
              }))
    unfolding list_page
    list_page_last last =
        let e : min (offset + step_size) (length t.order) ≡ length t.order = omega arith in
        let b1 : ltb (length t.order) offset ≡ false = ground arith in
        let b2 : ltb (length t.order) (length t.order) ≡ false = ground arith in
        let all : take (length t.order - offset) (drop offset t.order) ≡ drop offset t.order =
          take_all _ _ (omega (arith, length-drop offset t.order)) in
        rw (start_lem, end_lem, e, b1, b2, all)

    list_page_inner :
        offset + step_size < length t.order
        → list_page offset size t
          ≡ reply (
              ok (record {
                tasks = tasks_of t.tasks (take step_size (drop offset t.order));
                next_cursor = some (to_string (offset + step_size));
                total = length t.order;
              }))
    unfolding list_page
    list_page_inner more =
        let e : min (offset + step_size) (length t.order) ≡ offset + step_size = omega arith in
        let b1 : ltb (offset + step_size) offset ≡ false = ground arith in
        let b2 : ltb (offset + step_size) (length t.order) ≡ true = ground arith in
        let d : offset + step_size - offset ≡ step_size = omega arith in
        rw (start_lem, end_lem, e, b1, b2, d)

  walk_from :
      (rounds offset size : ℕ) (cursor : Option Bytes) (t : Table Json)
      → parse_task_list_cursor cursor ≡ ok offset
      → offset ≤ length t.order
      → length t.order - offset < rounds
      → effective size (length t.order) + length t.order ≤ max_size
      → walk rounds cursor size t ≡ some (tasks_of t.tasks (drop offset t.order))
  unfolding walk
  walk_from zero offset size cursor t parsed inside enough fits = absurd (omega arith)
  walk_from (suc rounds) offset size cursor t parsed inside enough fits =
      elim (Bool-cases (ltb (offset + effective size (length t.order)) (length t.order))) [
        | inr last ↦ rw (parsed, walk, list_page_last offset size t inside fits (ground arith))
        | inl more ↦
            let n = effective size (length t.order) in
            let lt : offset + n < length t.order = ground arith in
            let positive : 0 < n = ground arith in
            let next = to_string (offset + n) in
            let rest =
              walk_from rounds (offset + n) size (some next) t
                (parse-to_string (offset + n) (omega arith)) (omega arith) (omega arith) fits in
            let joined : take n (drop offset t.order) ++ drop (offset + n) t.order
                ≡ drop offset t.order =
              rw (← (drop-drop offset n t.order)) (take-append-drop n (drop offset t.order)) in
            rw (parsed, walk, list_page_inner offset size t inside fits lt, rest)
              (ap some (
                sym (
                  tasks_of-append t.tasks (take n (drop offset t.order))
                    (drop (offset + n) t.order))
                ∙ ap (tasks_of t.tasks) joined))
      ]

  -- If every identifier is that of a record, each one gives the snapshot of its record.
  tasks_of_lem :
      (tasks : Dict (TaskRecord Json)) (ids : List Bytes)
      → ((id : Bytes) → mem id ids ≡ true → is_some (find id tasks) ≡ true)
      → ((id : Bytes) (r : TaskRecord Json) → find id tasks ≡ some r → r.task.task_id ≡ id)
      → (map (λ task. task.task_id) (tasks_of tasks ids) ≡ ids)
        × (map some (tasks_of tasks ids) ≡ map (λ id. snapshot_in tasks id) ids)
  unfolding tasks_of
  tasks_of_lem tasks [] there named = (refl, refl)
  tasks_of_lem tasks (id ∷ ids) there named = elim (Option-cases (find id tasks)) [
    | inl missing ↦ absurd (ground (arith, there id (mem_self id ids)))
    | inr (r, e) ↦
        let (keys, snapshots) = tasks_of_lem tasks ids (λ j h. there j (ground arith)) named in
        let first : tasks_of tasks (id ∷ ids) ≡ r.task ∷ tasks_of tasks ids = ground arith in
        let has_it : snapshot_in tasks id ≡ some r.task = ground arith in
        (
          ap (map (λ task. task.task_id)) first
              ∙ ap (λ x. x ∷ map (λ task. task.task_id) (tasks_of tasks ids)) (named id r e)
              ∙ ap (◌∷◌ id) keys,
          ap (map some) first
              ∙ ap (◌∷◌ (some r.task)) snapshots
              ∙ ap (λ x. x ∷ map (λ j. snapshot_in tasks j) ids) (sym has_it),
        )
  ]

  -- In a sound processor, a client that starts without a cursor and follows each next cursor through
  -- a table that does not change is through after at most one request more than there are tasks, has
  -- been refused nothing, and has seen each task of the table once, in the order of submission, as its
  -- record has it; if the page size (the number of tasks, where it is 0) and the number of tasks
  -- together fit 64 bits.
  pub walk_is_complete :
      (size : ℕ) (p : Processor Json)
      → IsSound p
      → effective size (length p.order) + length p.order ≤ max_size
      → (seen : List (Task Json)) × (walk (suc (length p.order)) none size p.table ≡ some seen)
        × (map (λ task. task.task_id) seen ≡ p.order)
        × (map some seen ≡ map (λ id. snapshot_in p.tasks id) p.order)
        × Distinct p.order
        × ((id : Bytes) → mem id p.order ≡ is_some (find id p.tasks))
  walk_is_complete size p h fits =
      let (keys, snapshots) =
        tasks_of_lem p.tasks p.order (λ id e. sym (h.keyed.keyed id) ∙ e)
          (λ id r e. (h.phases id r e).0) in
      (
        tasks_of p.tasks p.order,
        walk_from (suc (length p.order)) 0 size none p.table (unfold parse_task_list_cursor in refl)
            (omega arith) (omega arith) fits,
        keys,
        snapshots,
        h.keyed.distinct,
        h.keyed.keyed,
      )
