-- ===== src/Vm/Enter.antt =====
-- load_tlb on a page that is in memory.
use longcat_os.Base.{
  ℕ, none, some, Bool, true, false, ◌%◌, ◌^◌, ◌<◌, ◌≡◌, ◌≢◌, arith, refl, sym, ap, ◌∙◌, Bool-cases,
  Option-cases, inl, inr,
}
use mathlib.Core.Option.{some-injective}
use longcat_os.Base.Outcome.{ret}
use longcat_os.Vm.{Vm, Pte, num_tlb, pte_at}
use longcat_os.Vm.Like.{Like, Like-Coherent}
use longcat_os.Vm.Sound.{Sound, Kept}
use longcat_os.Vm.Tlb.{tlb_probe}
use longcat_os.Vm.Fault.{slot_of, load_tlb}
use longcat_os.Vm.Load.{Loaded-TlbOk, here_now, probe-some, probe-none}
use longcat_os.Vm.Slot.{
  Slotted, Slotted-same, Slotted-told, told_frame, mark, entered, load_tlb_lem, final-Loaded,
  final-Like, final-Kept,
}

-- The buffer has the translation of the page at `v` to frame `i`, and lets it be written as `w` says.
pub record Translates (t : Vm) (v i : ℕ) (w : Bool) : Type 0 where
  pub slot : ℕ
  pub below : slot < num_tlb
  pub holds : t.tlbs slot ≡ record { hi = v; ppage = i; valid = true; dirty = w }

pub record Entered (cur : ℕ) (u : Vm) (v i : ℕ) (w : Bool) (t : Vm) : Type 0 where
  pub sound : Sound cur t
  pub kept : Kept u t
  pub like : Like u t
  pub translates : Translates t v i w

module _ (cur : ℕ) (u : Vm) (d : Sound cur u) (v i : ℕ) (own : (u.entries i).owner ≡ some cur)
    (at_v : (u.entries i).vaddr ≡ v) (small : v < 2 ^ 31) (w : Bool) (random : ℕ) where
  enter :
      (s : Vm) (k : ℕ)
      → k < num_tlb
      → slot_of random (tlb_probe u v) u ≡ ret k s
      → Slotted u i k s
      → ((k' : ℕ) → k' < num_tlb → k' ≢ k → (u.tlbs k').hi ≢ v)
      → (t : Vm) × (load_tlb random w v i u ≡ ret tt t) × Entered cur u v i w t
  enter s k lk e a only =
      let (t, f, b) = mark w s i in
      let l = final-Loaded u s t i v k w a b in
      let below = (d.coherent.frames i cur own).below in
      (
        entered t i v k w,
        load_tlb_lem u s t random v i k w e f,
        record {
          sound = record {
            coherent =
                Like-Coherent u (entered t i v k w) (final-Like u s t i v k w a b) d.coherent;
            tlb_ok =
                Loaded-TlbOk cur u d.tlb_ok i v k w (entered t i v k w) l below at_v own small lk
                  only;
          };
          kept = final-Kept u s t i v k w a b;
          like = final-Like u s t i v k w a b;
          translates = record {
            slot = k;
            below = lk;
            holds =
                here_now cur u d.tlb_ok i v k w (entered t i v k w) l below at_v own small lk only;
          };
        },
      )

  -- An entry for the page is for its frame.
  entry_frame : (k : ℕ) → k < num_tlb → (u.tlbs k).hi ≡ v → (u.tlbs k).ppage ≡ i
  entry_frame k lk e = elim (d.tlb_ok.range k lk) [
    | inr q ↦ absurd (omega arith)
    | inl (y, z) ↦
        (let (a, b, c) = d.tlb_ok.current k lk y in
          let h = d.coherent.frames i cur own in
          let h' = d.coherent.frames (u.tlbs k).ppage cur b in
          let q : (u.entries (u.tlbs k).ppage).vaddr ≡ (u.entries i).vaddr = c ∙ e ∙ sym at_v in
          sym h'.frame
          ∙ ap (λ (x : Pte). x.ppn)
              (some-injective h'.pte h.pte (sym h'.at ∙ ap (pte_at u cur) q ∙ h.at))
          ∙ h.frame)
  ]

  slot_random :
      (s : Vm) (k : ℕ)
      → k ≡ random % num_tlb
      → tlb_probe u v ≡ none
      → slot_of random none u ≡ ret k s
      → Slotted u i k s
      → (t : Vm) × (load_tlb random w v i u ≡ ret tt t) × Entered cur u v i w t
  slot_random s k q e f a =
      enter s k (omega arith) (ap (λ o. slot_of random o u) e ∙ f) a
        (λ k' l n. probe-none num_tlb 0 v u.tlbs e k' (omega arith) l)

  enter_random :
      tlb_probe u v ≡ none → (t : Vm) × (load_tlb random w v i u ≡ ret tt t) × Entered cur u v i w t
  enter_random e = elim (Bool-cases (u.tlbs (random % num_tlb)).valid) [
    | inl y ↦
        slot_random (told_frame u (random % num_tlb)) (random % num_tlb) refl e (ground (arith, y))
          (Slotted-told u i (random % num_tlb) y)
    | inr y ↦
        slot_random u (random % num_tlb) refl e (ground (arith, y))
          (Slotted-same u i (random % num_tlb) (λ z. absurd (ground (arith, y, z))))
  ]

  -- load_tlb keeps the state sound and makes the buffer translate the page.
  pub load_tlb-Entered : (t : Vm) × (load_tlb random w v i u ≡ ret tt t) × Entered cur u v i w t
  load_tlb-Entered = elim (Option-cases (tlb_probe u v)) [
    | inl e ↦ enter_random e
    | inr (k, e) ↦
        (let (a, l, h) = probe-some num_tlb 0 v k u.tlbs e in
          enter u k (omega arith) (ap (λ o. slot_of random o u) e)
            (Slotted-same u i k (λ z. entry_frame k (omega arith) h))
            (λ k' l' n q. n (d.tlb_ok.distinct k' k l' (omega arith) (q ∙ sym h))))
  ]

  -- A page whose frame has no flag is not in the buffer.
  pub no_flag-tlb_probe : (u.entries i).tlb ≡ false → tlb_probe u v ≡ none
  no_flag-tlb_probe n = elim (Option-cases (tlb_probe u v)) [
    | inl e ↦ e
    | inr (k, e) ↦
        (let (a, l, h) = probe-some num_tlb 0 v k u.tlbs e in
          let q = entry_frame k (omega arith) h in
          elim (d.tlb_ok.range k (omega arith)) [
            | inr z ↦ absurd (omega arith)
            | inl (y, z) ↦ absurd (
                ground
                  (arith, n, (d.tlb_ok.current k (omega arith) y).0, ap (λ x. (u.entries x).tlb) q))
          ])
  ]
