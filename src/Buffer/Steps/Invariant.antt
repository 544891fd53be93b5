-- ===== src/Buffer/Steps/Invariant.antt =====
-- Who holds the mutex, and where the newest value is.
use portage_realtime_tools_e.Base.{
  ℕ, ◌≡◌, refl, ◌≢◌, Bool, true, false, Option, none, some, update, arith,
}
use portage_realtime_tools_e.Buffer.{Object, Buffer, content, make}
use portage_realtime_tools_e.Buffer.Steps.{
  free, by_realtime, by_other, RealtimePc, OtherPc, System, initial, realtime_step, other_step,
  Step, realtime_runs, writes, reads, other_runs, Reach, here, next,
}

abbrev pub realtime_holds : RealtimePc → Bool
realtime_holds RealtimePc.away = false
realtime_holds RealtimePc.refused = false
realtime_holds _ = true

abbrev pub other_holds : {A : Type 0} → OtherPc A → Bool
other_holds OtherPc.idle = false
other_holds (OtherPc.write_locking a) = false
other_holds OtherPc.read_locking = false
other_holds _ = true

module _ {A : Type 0} where
  -- The object with the newest value is the one that the flag points out.
  abbrev pub Newest : Buffer A → A → Type 0
  Newest b a =
      (b.new_data_available ≡ true → content b b.non_realtime_data ≡ a)
      × (b.new_data_available ≡ false → content b b.realtime_data ≡ a)

  abbrev pub RealtimeFact : RealtimePc → Buffer A → Option Object → A → Type 0
  RealtimeFact RealtimePc.testing b given a = Newest b a
  RealtimeFact RealtimePc.swapping b given a = content b b.non_realtime_data ≡ a
  RealtimeFact RealtimePc.clearing b given a = content b b.realtime_data ≡ a
  RealtimeFact RealtimePc.reading b given a =
      (content b b.realtime_data ≡ a) × (b.new_data_available ≡ false)
  RealtimeFact RealtimePc.unlocking b given a =
      (content b b.realtime_data ≡ a)
      × (b.new_data_available ≡ false)
      × (given ≡ some b.realtime_data)
  RealtimeFact _ b given a = Unit

  abbrev pub OtherFact : OtherPc A → Buffer A → A → Type 0
  OtherFact (OtherPc.pointing v) b a = Newest b a
  OtherFact (OtherPc.storing p v) b a = p ≡ b.non_realtime_data
  OtherFact (OtherPc.flagging v) b a = content b b.non_realtime_data ≡ v
  OtherFact OtherPc.other_unlocking b a = Newest b a
  OtherFact OtherPc.looking b a = Newest b a
  OtherFact (OtherPc.looked p) b a = Newest b a × (content b p ≡ a)
  OtherFact _ b a = Unit

  pub record Inv (s : System A) : Type 0 where
    pub two_objects : s.buffer.realtime_data ≢ s.buffer.non_realtime_data
    pub realtime_owns : realtime_holds s.realtime ≡ true → s.mutex ≡ by_realtime
    pub other_owns : (i : ℕ) → other_holds (s.others i) ≡ true → s.mutex ≡ by_other i
    pub given_realtime : (p : Object) → s.given ≡ some p → p ≡ s.buffer.realtime_data
    pub not_given :
        s.realtime ≢ RealtimePc.away → s.realtime ≢ RealtimePc.unlocking → s.given ≡ none
    pub unlocked : s.mutex ≡ free → Newest s.buffer s.newest
    pub realtime_fact : RealtimeFact s.realtime s.buffer s.given s.newest
    pub other_fact : (i : ℕ) → OtherFact (s.others i) s.buffer s.newest

  Inv-initial : (a : A) → Inv (initial a)
  unfolding make
  Inv-initial a = record {
    two_objects = λ e. cc;
    realtime_owns = λ h. cc;
    other_owns = λ i h. cc;
    given_realtime = λ p e. cc;
    not_given = λ h n. refl;
    unlocked = λ e. (λ f. cc, λ f. refl);
    realtime_fact = tt;
    other_fact = λ i. tt;
  }

  realtime-Inv : (p : RealtimePc) (s : System A) → Inv s → s.realtime ≡ p → Inv (realtime_step p s)
  unfolding realtime_step
  realtime-Inv RealtimePc.away s inv e = record {
    two_objects = ground (arith, inv.two_objects);
    realtime_owns = λ h. ground arith;
    other_owns = λ i h. ground (arith, inv.other_owns i);
    given_realtime = λ p g. ground (arith, inv.given_realtime p);
    not_given = λ h n. ground arith;
    unlocked = λ f. ground (arith, inv.unlocked);
    realtime_fact = ground (arith, inv.unlocked);
    other_fact = λ i. ground (arith, inv.other_fact i, inv.other_owns i);
  }
  realtime-Inv p s inv e = record {
    two_objects = ground (arith, inv.two_objects);
    realtime_owns = λ h. ground (arith, inv.realtime_owns);
    other_owns = λ i h. ground (arith, inv.other_owns i, inv.realtime_owns);
    given_realtime = λ p g. ground (arith, inv.given_realtime p, inv.not_given);
    not_given = λ h n. ground (arith, inv.not_given);
    unlocked = λ f. ground (arith, inv.unlocked, inv.realtime_fact, inv.realtime_owns);
    realtime_fact = ground (arith, inv.realtime_fact, inv.two_objects);
    other_fact = λ i. ground (arith, inv.other_fact i, inv.other_owns i, inv.realtime_owns);
  }

  begin-Inv :
      (i : ℕ) (p : OtherPc A) (s : System A)
      → Inv s
      → other_holds p ≡ false
      → OtherFact p s.buffer s.newest
      → Inv (record s { others = update s.others i p })
  begin-Inv i p s inv h f = record {
    two_objects = inv.two_objects;
    realtime_owns = inv.realtime_owns;
    other_owns = λ j o. ground (arith, inv.other_owns j);
    given_realtime = inv.given_realtime;
    not_given = inv.not_given;
    unlocked = inv.unlocked;
    realtime_fact = inv.realtime_fact;
    other_fact = λ j. ground (arith, inv.other_fact j);
  }

  other-Inv :
      (i : ℕ) (q : OtherPc A) (s : System A) {t : System A} {p : OtherPc A}
      → Inv s
      → s.others i ≡ q
      → other_step i q s ≡ some (t, p)
      → Inv (record t { others = update s.others i p })
  unfolding other_step
  other-Inv i OtherPc.idle s inv e h = ground arith
  other-Inv i q s inv e h = record {
    two_objects = ground (arith, inv.two_objects);
    realtime_owns = λ r. ground (arith, inv.realtime_owns, inv.other_owns i);
    other_owns = λ j o. ground (arith, inv.other_owns j, inv.other_owns i);
    given_realtime = λ p g. ground (arith, inv.given_realtime p);
    not_given = λ r n. ground (arith, inv.not_given);
    unlocked = λ f. ground (arith, inv.unlocked, inv.other_fact i, inv.other_owns i);
    realtime_fact = ground (arith, inv.realtime_fact, inv.realtime_owns, inv.other_owns i);
    other_fact = λ j. ground (
      arith,
      inv.other_fact j,
      inv.other_fact i,
      inv.other_owns j,
      inv.other_owns i,
      inv.unlocked,
      inv.two_objects,
    );
  }

  pub Step-Inv : (s t : System A) → Inv s → Step s t → Inv t
  Step-Inv s _ inv realtime_runs = realtime-Inv s.realtime s inv refl
  Step-Inv s _ inv (writes i a e) = begin-Inv i (OtherPc.write_locking a) s inv refl tt
  Step-Inv s _ inv (reads i e) = begin-Inv i OtherPc.read_locking s inv refl tt
  Step-Inv s _ inv (other_runs i h) = other-Inv i (s.others i) s inv refl h

  pub Reach-Inv : (a : A) (s : System A) → Reach (initial a) s → Inv s
  Reach-Inv a _ here = Inv-initial a
  Reach-Inv a t (next {t = s} r st) = Step-Inv s t (Reach-Inv a s r) st
