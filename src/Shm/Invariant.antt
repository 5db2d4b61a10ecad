-- ===== src/Shm/Invariant.antt =====
-- States of shmput, shmget and their semaphore, EX03-10_shm_sem.
use edge_embedded_linux.Common.{ℕ, ◌≡◌, ◌≢◌, refl, ◌+◌, ◌≤◌, subst, arith}
use edge_embedded_linux.Shm.{
  ShmBuf, status_invalid, status_valid, checksum, print, Shared, PutPc, GetPc, Put, Get, System,
  Step, Reach,
}

-- What the memory promises to a reader.
abbrev pub IsSound : ShmBuf → Type 0
IsSound m = m.status ≡ status_valid → m.cs ≡ checksum m

-- 1 for a process that holds the semaphore.
abbrev pub put_holds : PutPc → ℕ
put_holds (PutPc.idle first) = 0
put_holds (PutPc.entered first) = 1
put_holds PutPc.timed = 1
put_holds PutPc.printed = 1
put_holds PutPc.marked = 1
put_holds PutPc.summed = 1
put_holds PutPc.invalidated = 1
put_holds PutPc.failed = 1
put_holds PutPc.ended = 0

abbrev pub get_holds : GetPc → ℕ
get_holds GetPc.idle = 0
get_holds GetPc.entered = 1
get_holds GetPc.valid = 1
get_holds GetPc.agreed = 1
get_holds GetPc.disagreed = 1
get_holds GetPc.not_valid = 1
get_holds GetPc.ended = 0

-- The memory is sound but between sprintf() and the store of the sum.
abbrev pub PutSound : ShmBuf → PutPc → Type 0
PutSound m (PutPc.idle first) = IsSound m
PutSound m (PutPc.entered first) = IsSound m
PutSound m PutPc.timed = IsSound m
PutSound m PutPc.printed = Unit
PutSound m PutPc.marked = Unit
PutSound m PutPc.summed = IsSound m
PutSound m PutPc.invalidated = IsSound m
PutSound m PutPc.failed = IsSound m
PutSound m PutPc.ended = IsSound m

abbrev pub GetSound : ShmBuf → GetPc → Type 0
GetSound m GetPc.idle = Unit
GetSound m GetPc.entered = Unit
GetSound m GetPc.valid = m.status ≡ status_valid
GetSound m GetPc.agreed = Unit
GetSound m GetPc.disagreed = ⊥
GetSound m GetPc.not_valid = Unit
GetSound m GetPc.ended = Unit

pub record Inv (s : System) : Type 0 where
  pub one : s.mem.sem + (put_holds s.put + get_holds s.get) ≡ 1
  pub put : PutSound s.mem.shm s.put
  pub get : GetSound s.mem.shm s.get

-- A reader that holds the semaphore sees sound memory, since the writer does not hold it.
IsSound-outside : (m : ShmBuf) (p : PutPc) → put_holds p ≡ 0 → PutSound m p → IsSound m
IsSound-outside m (PutPc.idle first) e h = h
IsSound-outside m (PutPc.entered first) e h = h
IsSound-outside m PutPc.timed e h = h
IsSound-outside m PutPc.printed e h = absurd (omega arith)
IsSound-outside m PutPc.marked e h = absurd (omega arith)
IsSound-outside m PutPc.summed e h = h
IsSound-outside m PutPc.invalidated e h = h
IsSound-outside m PutPc.failed e h = h
IsSound-outside m PutPc.ended e h = h

-- What a reader knows does not hang on the memory while it is outside.
outside : (m m' : ShmBuf) (g : GetPc) → get_holds g ≡ 0 → GetSound m g → GetSound m' g
outside m m' GetPc.idle e h = tt
outside m m' GetPc.entered e h = tt
outside m m' GetPc.valid e h = absurd (omega arith)
outside m m' GetPc.agreed e h = tt
outside m m' GetPc.disagreed e h = h
outside m m' GetPc.not_valid e h = tt
outside m m' GetPc.ended e h = tt

module _ (g : GetPc) where
  Put-Inv :
      {m m' : Shared} {p p' : PutPc}
      → Put m p m' p'
      → Inv (record { mem = m; put = p; get = g })
      → Inv (record { mem = m'; put = p'; get = g })
  Put-Inv (Put.take lt) h = record { one = omega (arith, h.one); put = h.put; get = h.get }
  Put-Inv Put.no_semop h = record { one = h.one; put = h.put; get = h.get }
  Put-Inv Put.no_time h = record { one = h.one; put = h.put; get = h.get }
  Put-Inv Put.in_time h = record { one = h.one; put = h.put; get = h.get }
  Put-Inv {m} Put.timeout h = record {
    one = h.one;
    put = λ e. absurd (omega (arith, e));
    get = outside m.shm (record m.shm { status = status_invalid }) g (omega (arith, h.one)) h.get;
  }
  Put-Inv {m} (Put.print_time t lt) h = record {
    one = h.one;
    put = tt;
    get = outside m.shm (record m.shm { buf = print t m.shm.buf }) g (omega (arith, h.one)) h.get;
  }
  Put-Inv {m} Put.mark h = record {
    one = h.one;
    put = tt;
    get = outside m.shm (record m.shm { status = status_valid }) g (omega (arith, h.one)) h.get;
  }
  Put-Inv {m} Put.add h = record {
    one = h.one;
    put = λ e. refl;
    get = outside m.shm (record m.shm { cs = checksum m.shm }) g (omega (arith, h.one)) h.get;
  }
  Put-Inv Put.give h = record { one = omega (arith, h.one); put = h.put; get = h.get }
  Put-Inv Put.leave h = record { one = omega (arith, h.one); put = h.put; get = h.get }
  Put-Inv Put.fail h = record { one = omega (arith, h.one); put = h.put; get = h.get }

module _ (p : PutPc) where
  Get-Inv :
      {m m' : Shared} {g g' : GetPc}
      → Get m g m' g'
      → Inv (record { mem = m; put = p; get = g })
      → Inv (record { mem = m'; put = p; get = g' })
  Get-Inv (Get.take lt) h = record { one = omega (arith, h.one); put = h.put; get = tt }
  Get-Inv Get.no_semop h = record { one = h.one; put = h.put; get = tt }
  Get-Inv (Get.stop ne) h = record { one = h.one; put = h.put; get = tt }
  Get-Inv (Get.go_on e) h = record { one = h.one; put = h.put; get = e }
  Get-Inv (Get.agree e) h = record { one = h.one; put = h.put; get = tt }
  Get-Inv {m} (Get.disagree ne) h = record {
    one = h.one;
    put = h.put;
    get = ne (IsSound-outside m.shm p (omega (arith, h.one)) h.put h.get);
  }
  Get-Inv Get.give h = record { one = omega (arith, h.one); put = h.put; get = tt }
  Get-Inv Get.leave h = record { one = omega (arith, h.one); put = h.put; get = tt }
  Get-Inv Get.leave_wrong h = absurd h.get

pub Reach-Inv : {shm : ShmBuf} {s : System} → IsSound shm → Reach shm s → Inv s
Reach-Inv sound Reach.here = record { one = refl; put = sound; get = tt }
Reach-Inv sound (Reach.later {s = s} r (Step.puts k)) = Put-Inv s.get k (Reach-Inv sound r)
Reach-Inv sound (Reach.later {s = s} r (Step.gets k)) = Get-Inv s.put k (Reach-Inv sound r)

-- When the memory is not marked valid with a wrong sum at the start, as when it is new, shmget never
-- reports an invalid checksum, and never are shmput and shmget both between their semops.
pub shm_agrees :
    {shm : ShmBuf} {s : System}
    → IsSound shm
    → Reach shm s
    → (s.get ≢ GetPc.disagreed) × (put_holds s.put + get_holds s.get ≤ 1)
shm_agrees {s = s} sound r =
    let h = Reach-Inv sound r in (λ e. subst (GetSound s.mem.shm) e h.get, omega (arith, h.one))
