-- ===== src/Autopilot/Undo.antt =====
-- What a rollback restores.
use kritvia_global_dashboard.Autopilot.{AutopilotRun}
use kritvia_global_dashboard.Autopilot.Runs.{assign, previous_assignee, undo_action}
use kritvia_global_dashboard.Base.{
  >>-eq-ok, All, AuthUserContext, Bool, Bool-cases, List, Memᴰ, Option, Option-cases, Pairs, String,
  [], after, any, ap, arith, eq_iff, false, find, find-mem, inl, inr, internal_error, is_text,
  is_text→eq, mem-All, mem-any, none, ok, refl, require, some, sym, true, update, ℕ, ◌&&◌, ◌===◌,
  ◌∙◌, ◌∷◌, ◌≡◌,
}
use kritvia_global_dashboard.Fixes.{FixActionRun, RunResult, Shop, WorkItem, reassigned, unchanged}
use kritvia_global_dashboard.Fixes.Actions.{execute_reassign_work, get_string_input}
use mathlib.Core.Bool.{and-eq-true_iff}

-- The identifiers of the work items are distinct.
abbrev pub OtherItem : WorkItem → WorkItem → Type 0
OtherItem v w = (v.id === w.id) ≡ false

-- Only the item that is found has the identifier.
abbrev Only : String → WorkItem → WorkItem → Type 0
Only id w x = x.id === id ≡ true → x ≡ w

none_later :
    (id : String) (x : WorkItem) (ws : List WorkItem) (w : WorkItem)
    → x.id ≡ id
    → All (OtherItem x) ws
    → All (Only id w) ws
none_later id x [] w e h = tt
none_later id x (y ∷ ys) w e (h, hs) = (clash, none_later id x ys w e hs)
  where
    clash : y.id === id ≡ true → y ≡ w
    clash t = absurd (ground (arith, eq_iff y.id id, eq_iff x.id y.id))

found-Only :
    (id org_id : String) (ws : List WorkItem) (w : WorkItem)
    → Pairs OtherItem ws
    → find (λ x. x.id === id && x.org_id === org_id) ws ≡ some w
    → All (Only id w) ws
found-Only id org_id [] w h e = tt
found-Only id org_id (x ∷ xs) w (h, hs) e = elim (Bool-cases (x.id === id)) [
  | inr f ↦ (
    λ t. absurd (let q : true ≡ false = sym t ∙ f in cc),
    found-Only id org_id xs w hs (rw f at e),
  )
  | inl f ↦ elim (Bool-cases (x.org_id === org_id)) [
    | inl g ↦
        let first : x ≡ w = ground arith in
        (λ t. first, none_later id x xs w ((eq_iff x.id id).0 f) h)
    | inr g ↦
        let (m, t) = find-mem (λ y. y.id === id && y.org_id === org_id) xs w (rw (f, g) at e) in
        let other : OtherItem x w = mem-All (OtherItem x) m h in
        absurd (clash x w f ((and-eq-true_iff (w.id === id) (w.org_id === org_id)).0 t).0 other)
  ]
]
  where
    clash : (v u : WorkItem) → v.id === id ≡ true → u.id === id ≡ true → OtherItem v u → ⊥
    clash v u a b o = ground (arith, eq_iff v.id id, eq_iff u.id id, eq_iff v.id u.id)

-- An assignment that is taken back by the assignee before.
assign_back :
    (id : String) (user_id : Option String) (w : WorkItem) (ws : List WorkItem)
    → All (Only id w) ws
    → update
        (λ x. x.id === id)
        (λ x. record x { assigned_to_user_id = w.assigned_to_user_id })
        (update (λ x. x.id === id) (λ x. record x { assigned_to_user_id = user_id }) ws)
      ≡ ws
assign_back id user_id w [] h = refl
assign_back id user_id w (x ∷ xs) (h, hs) = elim (Bool-cases (x.id === id)) [
  | inl e ↦ rw (e, e, h e, assign_back id user_id w xs hs) refl
  | inr e ↦ rw (e, e, assign_back id user_id w xs hs) refl
]

module _ (now : ℕ) (run : FixActionRun) (user : AuthUserContext) where
  -- What a preview that sees a change answers, and what the execution then does.
  reassign_ok :
      (s s0 s1 : Shop) (previous : Option String) (assignee : String) (r : RunResult)
      → execute_reassign_work now run user true s ≡ ok (s0, reassigned true previous assignee)
      → execute_reassign_work now run user false s ≡ ok (s1, r)
      → (w : WorkItem) × (find (λ x. x.id === run.entity_id && x.org_id === run.org_id) s.work_items
          ≡ some w)
        × (w.assigned_to_user_id ≡ previous)
        × (s1.work_items
            ≡ update
                (λ x. x.id === w.id)
                (λ x. record x { assigned_to_user_id = some assignee })
                s.work_items)
  unfolding execute_reassign_work
  reassign_ok s s0 s1 previous assignee r dry real =
      elim (Option-cases (get_string_input run.input.assignee_user_id)) [
        | inl a ↦ absurd (ground arith)
        | inr (wanted, a) ↦
            elim (Option-cases
              (find (λ x. x.id === run.entity_id && x.org_id === run.org_id) s.work_items)) [
                | inl b ↦ absurd (ground arith)
                | inr (w, b) ↦ (w, b, ground arith, ground arith)
              ]
      ]

undo_assign :
    (a : AutopilotRun) (s1 s2 : Shop) (id : String) (previous : Option String) (assignee : String)
    → a.entity_id ≡ id
    → a.preview ≡ some (reassigned true previous assignee)
    → undo_action "REASSIGN_WORK" a s1 ≡ ok s2
    → s2.work_items
      ≡ update (λ x. x.id === id) (λ x. record x { assigned_to_user_id = previous }) s1.work_items
unfolding undo_action
undo_assign a s1 s2 id previous assignee e seen h =
    let (_, done_call) =
      >>-eq-ok (require (any (λ x. x.id === a.entity_id) s1.work_items) internal_error)
        (ok (assign a.entity_id (previous_assignee a.preview) s1)) s2 h in
    let one_shop : assign a.entity_id (previous_assignee a.preview) s1 ≡ s2 =
      ap (after s1) done_call in
    sym (ap (λ s. s.work_items) one_shop) ∙ rw (seen, e) refl

-- Taking back a reassignment restores the work items: after a preview that answers a change and the
-- execution of the run on the same tables, the undo of an autopilot run with that preview gives the
-- table of work items as it was. The identifiers of the work items are distinct.
pub undo_action-reassign :
    (now : ℕ) (run : FixActionRun) (user : AuthUserContext) (a : AutopilotRun) (s s0 s1 s2 : Shop)
    (previous : Option String) (assignee : String) (r : RunResult)
    → Pairs OtherItem s.work_items
    → execute_reassign_work now run user true s ≡ ok (s0, reassigned true previous assignee)
    → execute_reassign_work now run user false s ≡ ok (s1, r)
    → a.entity_id ≡ run.entity_id
    → a.preview ≡ some (reassigned true previous assignee)
    → undo_action "REASSIGN_WORK" a s1 ≡ ok s2
    → s2.work_items ≡ s.work_items
undo_action-reassign now run user a s s0 s1 s2 previous assignee r ids dry real same_entity seen h =
    let (w, e, was, rows) = reassign_ok now run user s s0 s1 previous assignee r dry real in
    let id_found : w.id ≡ run.entity_id =
      (eq_iff w.id run.entity_id).0
        ((and-eq-true_iff (w.id === run.entity_id) (w.org_id === run.org_id)).0
          (find-mem (λ x. x.id === run.entity_id && x.org_id === run.org_id) s.work_items w
            e).1).0 in
    let undone : s2.work_items
        ≡ update (λ x. x.id === run.entity_id) (λ x. record x { assigned_to_user_id = previous })
            s1.work_items =
      undo_assign a s1 s2 run.entity_id previous assignee same_entity seen h in
    undone
    ∙ rw (rows, id_found, ← was)
        (assign_back run.entity_id (some assignee) w s.work_items
          (found-Only run.entity_id run.org_id s.work_items w ids e))

update-mem {ℓ} :
    {A : Type ℓ} (p : A → Bool) (f : A → A) {x : A} {xs : List A}
    → Memᴰ x xs
    → p x ≡ true
    → Memᴰ (f x) (update p f xs)
update-mem p f (Memᴰ.head e) t = Memᴰ.head (rw (← e, t) refl)
update-mem p f (Memᴰ.tail m) t = Memᴰ.tail (update-mem p f m t)

module _ (now : ℕ) (run : FixActionRun) (user : AuthUserContext) where
  -- What a preview that sees no change has found, and what the execution then does.
  unchanged_ok :
      (s s0 : Shop) (assignee : String)
      → execute_reassign_work now run user true s ≡ ok (s0, unchanged assignee)
      → (w : WorkItem) × (find (λ x. x.id === run.entity_id && x.org_id === run.org_id) s.work_items
          ≡ some w)
        × (is_text w.assigned_to_user_id assignee ≡ true)
        × (execute_reassign_work now run user false s ≡ ok (s, unchanged assignee))
  unfolding execute_reassign_work
  unchanged_ok s s0 assignee dry =
      elim (Option-cases (get_string_input run.input.assignee_user_id)) [
        | inl a ↦ absurd (ground arith)
        | inr (wanted, a) ↦
            elim (Option-cases
              (find (λ x. x.id === run.entity_id && x.org_id === run.org_id) s.work_items)) [
                | inl b ↦ absurd (ground arith)
                | inr (w, b) ↦ (w, b, ground arith, ground arith)
              ]
      ]

  -- A reassignment to the user who has the item already changes nothing, and its preview keeps no
  -- assignee before it: after such a preview and the execution of the run, which leaves the tables
  -- as they are, the undo of an autopilot run with that preview takes the item from its assignee,
  -- and leaves it without one.
  pub undo_action-unchanged :
      (a : AutopilotRun) (s s0 : Shop) (assignee : String)
      → execute_reassign_work now run user true s ≡ ok (s0, unchanged assignee)
      → a.entity_id ≡ run.entity_id
      → a.preview ≡ some (unchanged assignee)
      → (w : WorkItem) × (s' : Shop) × (execute_reassign_work now run user false s
          ≡ ok (s, unchanged assignee))
        × (undo_action "REASSIGN_WORK" a s ≡ ok s')
        × (w.assigned_to_user_id ≡ some assignee)
        × Memᴰ w s.work_items
        × Memᴰ (record w { assigned_to_user_id = none }) s'.work_items
  unfolding undo_action
  undo_action-unchanged a s s0 assignee dry same_entity seen =
      let (w, e, has, real) = unchanged_ok s s0 assignee dry in
      let (m, t) =
        find-mem (λ x. x.id === run.entity_id && x.org_id === run.org_id) s.work_items w e in
      let id_found = ((and-eq-true_iff (w.id === run.entity_id) (w.org_id === run.org_id)).0 t).0 in
      let there : any (λ x. x.id === run.entity_id) s.work_items ≡ true =
        mem-any (λ x. x.id === run.entity_id) m id_found in
      (
        w,
        assign run.entity_id none s,
        real,
        rw (same_entity, seen, there) refl,
        is_text→eq _ assignee has,
        m,
        update-mem (λ x. x.id === run.entity_id) _ m id_found,
      )
