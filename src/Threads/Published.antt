-- ===== src/Threads/Published.antt =====
-- All steps of a thread, as to the buffers.
use makedumpfile.Prelude.{
  ℕ, ◌+◌, ◌-◌, ◌%◌, ◌<◌, ◌≡◌, refl, ap, ◌∙◌, sym, subst, Bool, true, false, Option, none, some, [],
  ◌∷◌, ◌++◌, length, leb, if◌then◌else◌, arith, Bool-cases, inl, inr,
}
use mathlib.Core.Bool.{false≢true}
use mathlib.Core.Option.{none-ne-some}
use makedumpfile.Threads.{
  PageFlag, PageOut, zero_page, page_data, Producer, take_buffer, wait_flag, post, fill, leave,
  exited, failed, ThreadsState, ThreadInfo, set_at, publish_page, publish_zero, filling, next_pfn,
  take_buffer_step, wait_flag_step, post_step, filled, leave_step, produce_at, produce,
}
use makedumpfile.Threads.Sum.{set_at-view, set_at-same}
use makedumpfile.Threads.Buffers.{holding, IsLast, Filling, Owned, Owned-move}
use makedumpfile.Threads.Moves.{
  Owned-pc, Owned-take, In-append, IsLast-append, In-publish_zero, In-publish_page,
}

pub set_at-other :
    {A : Type 0} → (f : ℕ → A) (i : ℕ) (v : A) (j : ℕ) → (j ≡ i → ⊥) → set_at f i v j ≡ f j
set_at-other f i v j apart = elim (set_at-view f i v j) [
  | inl e ↦ absurd (apart e)
  | inr same ↦ same
]

-- In each state the buffers are owned as they should be.
abbrev pub IsOwned : ThreadInfo → ThreadsState → Type 0
IsOwned info s = Owned info s.used s.stored s.queues s.producers

module _ (info : ThreadInfo) (i : ℕ) (s : ThreadsState) (owned : IsOwned info s) where
  take_buffer-IsOwned :
      (b : ℕ) → s.producers i ≡ take_buffer b → IsOwned info (take_buffer_step info s i b)
  take_buffer-IsOwned b at =
      let next = record s {
        producers = set_at s.producers i (take_buffer ((b + 1) % info.num_buffers));
      } in
      let got = record s {
        used = set_at s.used b true;
        producers = set_at s.producers i (wait_flag b);
      } in
      elim (Bool-cases (s.used b)) [
        | inl busy ↦ subst (IsOwned info) (sym (ap (λ x. if x then next else got) busy)) (
            Owned-pc info i s (take_buffer ((b + 1) % info.num_buffers)) s.used
              (λ c e. absurd (none-ne-some _ e)) (λ c kept is. is) tt owned)
        | inr free ↦
            subst (IsOwned info) (sym (ap (λ x. if x then next else got) free))
              (Owned-take info i s b free owned)
      ]

  wait_flag-IsOwned :
      (b : ℕ) → s.producers i ≡ wait_flag b → IsOwned info (wait_flag_step info s i b)
  wait_flag-IsOwned b at =
      let pfn = next_pfn info (info.end_pfn - s.current_pfn) s.current_pfn in
      let s' : ThreadsState = record s {
        current_pfn = pfn + 1;
        queues = set_at s.queues i (s.queues i ++ (filling info pfn ∷ []));
        producers = set_at s.producers i (post b pfn);
      } in
      elim (Bool-cases (leb info.num_flags (length (s.queues i)))) [
        | inl full ↦ subst (IsOwned info) (sym (ap (λ x. if x then s else s') full)) owned
        | inr room ↦ subst (IsOwned info) (sym (ap (λ x. if x then s else s') room)) (
            Owned-move info i 0 0 s.used s.used s.stored s.stored s.queues s.producers
              (s.queues i ++ (filling info pfn ∷ [])) (post b pfn) (λ c e. ap holding at ∙ e)
              (λ c kept is. is) (λ c other. refl) (λ below. IsLast-append info pfn (s.queues i))
              (λ f inside ready. elim (In-append f (filling info pfn) (s.queues i) inside) [
                | inl old ↦ inl old
                | inr new ↦ absurd (false≢true (ap (λ (g : PageFlag). g.ready) new ∙ ready))
              ])
              owned)
      ]

  post-IsOwned : (b p : ℕ) → s.producers i ≡ post b p → IsOwned info (post_step info s i b p)
  post-IsOwned b p at =
      let last : p < info.end_pfn → IsLast p (s.queues i) =
        subst (λ pc. Filling info pc (s.queues i)) at (owned.filling i) in
      let to : Bool → ThreadsState = λ x. record s {
        sem = s.sem + 1;
        producers = set_at s.producers i (if x then leave b else fill b p);
      } in
      elim (Bool-cases (leb info.end_pfn p)) [
        | inl over ↦ subst (IsOwned info) (sym (ap to over)) (
            Owned-pc info i s (leave b) s.used (λ c e. ap holding at ∙ e) (λ c kept is. is) tt
              owned)
        | inr more ↦ subst (IsOwned info) (sym (ap to more)) (
            Owned-pc info i s (fill b p) s.used (λ c e. ap holding at ∙ e) (λ c kept is. is)
              (last (ground (arith, more))) owned)
      ]

  leave-IsOwned : (b : ℕ) → s.producers i ≡ leave b → IsOwned info (leave_step info s i b)
  leave-IsOwned b at =
      Owned-pc info i s exited (set_at s.used b false) (λ c e. absurd (none-ne-some _ e))
        (λ c kept is. elim kept [
          | inl other ↦
              set_at-other s.used b false c (λ e. other (ap holding at ∙ ap (λ x. some x) (sym e)))
              ∙ is
          | inr none_held ↦ absurd (none-ne-some _ none_held)
        ])
        tt owned

  filled-IsOwned :
      (b p : ℕ) (page : Option PageOut)
      → info.prepare p ≡ page
      → s.producers i ≡ fill b p
      → IsOwned info (filled info s i b page)
  filled-IsOwned b p none prepared at =
      Owned-pc info i s failed s.used (λ c e. absurd (none-ne-some _ e)) (λ c kept is. is) tt owned
  filled-IsOwned b p (some zero_page) prepared at =
      let last : IsLast p (s.queues i) =
        subst (λ pc. Filling info pc (s.queues i)) at (owned.filling i) in
      Owned-move info i b p s.used s.used s.stored s.stored s.queues s.producers
        (publish_zero (s.queues i)) (wait_flag b) (λ c e. ap holding at ∙ e) (λ c kept is. is)
        (λ c other. refl) tt
        (λ f inside ready. elim (In-publish_zero f p (s.queues i) last inside) [
          | inl old ↦ inl old
          | inr new ↦ inr (new.0, inl (new.1, prepared))
        ])
        owned
  filled-IsOwned b p (some (page_data flags size buf)) prepared at =
      let last : IsLast p (s.queues i) =
        subst (λ pc. Filling info pc (s.queues i)) at (owned.filling i) in
      let mine : holding (s.producers i) ≡ some b = ap holding at in
      Owned-move info i b p s.used s.used s.stored (set_at s.stored b (page_data flags size buf))
        s.queues s.producers (publish_page b (s.queues i)) (take_buffer b)
        (λ c e. absurd (none-ne-some _ e)) (λ c kept is. is)
        (λ c other.
          set_at-other s.stored b (page_data flags size buf) c
            (λ e. other (mine ∙ ap (λ x. some x) (sym e))))
        tt
        (λ f inside ready. elim (In-publish_page f b p (s.queues i) last inside) [
          | inl old ↦ inl old
          | inr new ↦ inr (
            new.0,
            inr (
              new.1,
              new.2,
              mine,
              refl,
              owned.held i b mine,
              prepared ∙ ap (λ x. some x) (sym (set_at-same s.stored b (page_data flags size buf))),
            ),
          )
        ])
        owned

  produce_at-IsOwned : (pc : Producer) → s.producers i ≡ pc → IsOwned info (produce_at info s i pc)
  produce_at-IsOwned (take_buffer b) at = take_buffer-IsOwned b at
  produce_at-IsOwned (wait_flag b) at = wait_flag-IsOwned b at
  produce_at-IsOwned (post b p) at = post-IsOwned b p at
  produce_at-IsOwned (fill b p) at = filled-IsOwned b p (info.prepare p) refl at
  produce_at-IsOwned (leave b) at = leave-IsOwned b at
  produce_at-IsOwned exited at = owned
  produce_at-IsOwned failed at = owned

  pub produce-IsOwned : IsOwned info (produce info s i)
  unfolding produce
  produce-IsOwned = produce_at-IsOwned (s.producers i) refl

if_written :
    (b : Bool) (s t u : ThreadsState)
    → s.written ≡ u.written
    → t.written ≡ u.written
    → (if b then s else t).written ≡ u.written
if_written true s t u one two = one
if_written false s t u one two = two

filled-written :
    (info : ThreadInfo) (i b : ℕ) (s : ThreadsState) (page : Option PageOut)
    → (filled info s i b page).written ≡ s.written
filled-written info i b s none = refl
filled-written info i b s (some zero_page) = refl
filled-written info i b s (some (page_data flags size buf)) = refl

produce_at-written :
    (info : ThreadInfo) (i : ℕ) (s : ThreadsState) (pc : Producer)
    → (produce_at info s i pc).written ≡ s.written
produce_at-written info i s (take_buffer b) =
    if_written (s.used b)
      (record s { producers = set_at s.producers i (take_buffer ((b + 1) % info.num_buffers)) })
      (record s { used = set_at s.used b true; producers = set_at s.producers i (wait_flag b) }) s
      refl refl
produce_at-written info i s (wait_flag b) =
    let pfn = next_pfn info (info.end_pfn - s.current_pfn) s.current_pfn in
    if_written (leb info.num_flags (length (s.queues i))) s
      (record s {
        current_pfn = pfn + 1;
        queues = set_at s.queues i (s.queues i ++ (filling info pfn ∷ []));
        producers = set_at s.producers i (post b pfn);
      })
      s refl refl
produce_at-written info i s (post b p) = refl
produce_at-written info i s (fill b p) = filled-written info i b s (info.prepare p)
produce_at-written info i s (leave b) = refl
produce_at-written info i s exited = refl
produce_at-written info i s failed = refl

-- Only the main thread writes.
pub produce-written :
    (info : ThreadInfo) (i : ℕ) (s : ThreadsState) → (produce info s i).written ≡ s.written
unfolding produce
produce-written info i s = produce_at-written info i s (s.producers i)
