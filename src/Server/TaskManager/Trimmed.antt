-- ===== src/Server/TaskManager/Trimmed.antt =====
-- What `trim_completed_locked` removes: terminal tasks only, the oldest first, down to the limit.
use cxxmcp.Prelude.{
  ℕ, ◌-◌, ◌≡◌, ◌⊎◌, inl, inr, refl, sym, ◌∙◌, true, false, Bytes, bytes_eq_iff, Option, none, some,
  List, [], ◌∷◌, arith, ℤ, ltb,
}
use cxxmcp.Prelude.Dict.{Dict, find, erase, find-erase}
use cxxmcp.Server.TaskManager.State.{TaskRecord, Options, Table}
use cxxmcp.Server.TaskManager.Trim.{
  is_terminal_at, is_expired_at, trim_expired, count_terminal, trim_excess, trim_completed, keep_id,
  trim_aged, trim_to,
}
use cxxmcp.Server.TaskManager.Keys.{mem, is_some, Distinct, IsKeyed}
use cxxmcp.Prelude.{Bool-cases}

module _ {Json : Type 0} where
  -- An entry of the second map is that of the first, and one that is missing was terminal.
  abbrev pub Survives : Option (TaskRecord Json) → Option (TaskRecord Json) → Type 0
  Survives before after = (after ≡ before) ⊎ ((after ≡ none) × (is_terminal_at before ≡ true))

  -- What a trim of the identifiers `ids` does.
  record Trims (ids : List Bytes) (tasks : Dict (TaskRecord Json)) (t : Table Json) : Type 0 where
    pub distinct : Distinct t.order
    pub survives : (id : Bytes) → Survives (find id tasks) (find id t.tasks)
    pub elsewhere : (id : Bytes) → mem id ids ≡ false → find id t.tasks ≡ find id tasks
    pub keys : (id : Bytes) → mem id ids ≡ true → mem id t.order ≡ is_some (find id t.tasks)
    pub no_more : (id : Bytes) → mem id ids ≡ false → mem id t.order ≡ false

  abbrev AllThere : List Bytes → Dict (TaskRecord Json) → Type 0
  AllThere ids tasks = (id : Bytes) → mem id ids ≡ true → is_some (find id tasks) ≡ true

  Trims-none :
      (ids : List Bytes) (tasks : Dict (TaskRecord Json))
      → Distinct ids
      → AllThere ids tasks
      → Trims ids tasks (record { tasks = tasks; order = ids })
  Trims-none ids tasks d there = record {
    distinct = d;
    survives = λ id. inl refl;
    elsewhere = λ id h. refl;
    keys = λ id h. h ∙ sym (there id h);
    no_more = λ id h. h;
  }

  Trims-keep :
      (id : Bytes) (ids : List Bytes) (tasks : Dict (TaskRecord Json)) (t : Table Json)
      → Distinct (id ∷ ids)
      → AllThere (id ∷ ids) tasks
      → Trims ids tasks t
      → Trims (id ∷ ids) tasks (keep_id id t)
  Trims-keep id ids tasks t d there h = record {
    distinct = (h.no_more id d.0, h.distinct);
    survives = h.survives;
    elsewhere = λ j e. h.elsewhere j (ground arith);
    keys = λ j e.
        ground (arith, bytes_eq_iff id j, h.keys j, h.no_more j, h.elsewhere j, there j, d.0);
    no_more = λ j e. ground (arith, h.no_more j);
  }

  Trims-drop :
      (id : Bytes) (ids : List Bytes) (tasks : Dict (TaskRecord Json)) (t : Table Json)
      → Distinct (id ∷ ids)
      → is_terminal_at (find id tasks) ≡ true
      → Trims ids (erase id tasks) t
      → Trims (id ∷ ids) tasks t
  Trims-drop id ids tasks t d gone h = record {
    distinct = h.distinct;
    survives = λ j. ground (arith, bytes_eq_iff id j, find-erase id j tasks, h.survives j);
    elsewhere = λ j e. ground (arith, bytes_eq_iff id j, find-erase id j tasks, h.elsewhere j);
    keys = λ j e.
        ground
          (arith, bytes_eq_iff id j, find-erase id j tasks, h.keys j, h.no_more j, h.elsewhere j);
    no_more = λ j e. ground (arith, h.no_more j);
  }

  AllThere-erase :
      (id : Bytes) (ids : List Bytes) (tasks : Dict (TaskRecord Json))
      → mem id ids ≡ false
      → AllThere (id ∷ ids) tasks
      → AllThere ids (erase id tasks)
  AllThere-erase id ids tasks fresh there j e =
      ground (arith, bytes_eq_iff id j, find-erase id j tasks, there j)

  AllThere-tail :
      (id : Bytes) (ids : List Bytes) (tasks : Dict (TaskRecord Json))
      → AllThere (id ∷ ids) tasks
      → AllThere ids tasks
  AllThere-tail id ids tasks there j e = there j (ground arith)

  expired_is_terminal :
      (ttl : ℤ) (now : ℕ) (o : Option (TaskRecord Json))
      → is_expired_at ttl now o ≡ true
      → is_terminal_at o ≡ true
  unfolding is_expired_at is_terminal_at
  expired_is_terminal ttl now o h = ground arith

  trim_expired-Trims :
      (ttl : ℤ) (now : ℕ) (ids : List Bytes) (tasks : Dict (TaskRecord Json))
      → Distinct ids
      → AllThere ids tasks
      → Trims ids tasks (trim_expired ttl now ids tasks)
  unfolding trim_expired
  trim_expired-Trims ttl now [] tasks d there = Trims-none [] tasks d there
  trim_expired-Trims ttl now (id ∷ ids) tasks d there =
      elim (Bool-cases (is_expired_at ttl now (find id tasks))) [
        | inl gone ↦ rw gone (
            Trims-drop id ids tasks _ d (expired_is_terminal ttl now (find id tasks) gone) (
              trim_expired-Trims ttl now ids (erase id tasks) d.1
                (AllThere-erase id ids tasks d.0 there)))
        | inr kept ↦ rw kept (
            Trims-keep id ids tasks _ d there
              (trim_expired-Trims ttl now ids tasks d.1 (AllThere-tail id ids tasks there)))
      ]

  trim_excess-Trims :
      (limit count : ℕ) (ids : List Bytes) (tasks : Dict (TaskRecord Json))
      → Distinct ids
      → AllThere ids tasks
      → Trims ids tasks (trim_excess limit count ids tasks)
  unfolding trim_excess
  trim_excess-Trims limit count [] tasks d there = Trims-none [] tasks d there
  trim_excess-Trims limit count (id ∷ ids) tasks d there = elim (Bool-cases (ltb limit count)) [
    | inr done ↦ rw done (Trims-none (id ∷ ids) tasks d there)
    | inl more ↦ elim (Bool-cases (is_terminal_at (find id tasks))) [
      | inl gone ↦
          rw (more, gone)
            (Trims-drop id ids tasks _ d gone (
              trim_excess-Trims limit (count - 1) ids (erase id tasks) d.1
                (AllThere-erase id ids tasks d.0 there)))
      | inr kept ↦
          rw (more, kept)
            (Trims-keep id ids tasks _ d there
              (trim_excess-Trims limit count ids tasks d.1 (AllThere-tail id ids tasks there)))
    ]
  ]

  IsKeyed-of_Trims : (t u : Table Json) → IsKeyed t → Trims t.order t.tasks u → IsKeyed u
  IsKeyed-of_Trims t u k h = record {
    distinct = h.distinct;
    keyed = λ id.
        ground
          (arith, Bool-cases (mem id t.order), k.keyed id, h.keys id, h.no_more id, h.elsewhere id);
  }

  there_of_keyed : (t : Table Json) → IsKeyed t → AllThere t.order t.tasks
  there_of_keyed t k id h = sym (k.keyed id) ∙ h

  pub trim_aged_lem :
      (ttl : Option ℤ) (now : ℕ) (t : Table Json)
      → IsKeyed t
      → IsKeyed (trim_aged ttl now t)
        × ((id : Bytes) → Survives (find id t.tasks) (find id (trim_aged ttl now t).tasks))
  trim_aged_lem none now t k = (k, λ id. inl refl)
  trim_aged_lem (some ttl) now t k =
      let h = trim_expired-Trims ttl now t.order t.tasks k.distinct (there_of_keyed t k) in
      (IsKeyed-of_Trims t (trim_expired ttl now t.order t.tasks) k h, h.survives)

  trim_to_lem :
      (limit : ℕ) (t : Table Json)
      → IsKeyed t
      → IsKeyed (trim_to limit t)
        × ((id : Bytes) → Survives (find id t.tasks) (find id (trim_to limit t).tasks))
  trim_to_lem limit t k =
      let h =
        trim_excess-Trims limit (count_terminal t.order t.tasks) t.order t.tasks k.distinct
          (there_of_keyed t k) in
      (IsKeyed-of_Trims t (trim_to limit t) k h, h.survives)

  pub Survives-trans :
      (a b c : Option (TaskRecord Json)) → Survives a b → Survives b c → Survives a c
  Survives-trans a b c h k = ground arith

  pub trim_completed-IsKeyed :
      (o : Options) (now : ℕ) (t : Table Json) → IsKeyed t → IsKeyed (trim_completed o now t)
  unfolding trim_completed
  trim_completed-IsKeyed o now t k =
      (trim_to_lem o.max_completed_tasks (trim_aged o.completed_task_ttl now t)
        (trim_aged_lem o.completed_task_ttl now t k).0).0

  pub trim_completed-Survives :
      (o : Options) (now : ℕ) (t : Table Json)
      → IsKeyed t
      → (id : Bytes) → Survives (find id t.tasks) (find id (trim_completed o now t).tasks)
  unfolding trim_completed
  trim_completed-Survives o now t k id =
      let aged = trim_aged_lem o.completed_task_ttl now t k in
      let kept = trim_to_lem o.max_completed_tasks (trim_aged o.completed_task_ttl now t) aged.0 in
      Survives-trans _ _ _ (aged.1 id) (kept.1 id)
