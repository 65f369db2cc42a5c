-- ===== src/Codec/Scan/Resume.antt =====
-- Inversion of the steps of `scan` (src/adapters/codec/wire.rs).
use changekernel.Base.{◌≡◌, ◌≢◌, refl, none, some, Result, ok, err}
use changekernel.Codec.{CodecError}
use changekernel.Codec.Scan.{Fuelled, resume}

pub resume-eq-ok :
    {A B : Type 0} (m : Fuelled A) (next : A → Fuelled B) {b : B}
    → resume m next ≡ some (ok b)
    → (a : A) × (m ≡ some (ok a)) × (next a ≡ some (ok b))
unfolding resume
resume-eq-ok none next h = absurd (cc)
resume-eq-ok (some (err e)) next h = absurd (cc)
resume-eq-ok (some (ok a)) next h = (a, refl, h)

pub resume_returns :
    {A B : Type 0} (m : Fuelled A) (next : A → Fuelled B)
    → m ≢ none
    → ((a : A) → m ≡ some (ok a) → next a ≢ none)
    → resume m next ≢ none
unfolding resume
resume_returns none next h k = absurd (h refl)
resume_returns (some (err e)) next h k = λ e. cc
resume_returns (some (ok a)) next h k = k a refl

pub some_returns : {A : Type 0} (r : Result CodecError A) → some r ≢ none
some_returns r h = cc
