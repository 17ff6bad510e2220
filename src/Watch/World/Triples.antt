-- ===== src/Watch/World/Triples.antt =====
-- Predicates on the state of the engine that a method keeps, whether it fails or not.
use open_light.Base.{Bool, true, false, Option, none, some, List, ◌≡◌, refl, if◌then◌else◌, arith}
use open_light.Errors.{Result, ok, err}
use open_light.Watch.World.{World, M, continue, ◌>>=◌, draw, read, write, written}

pub record Keeps {A : Type 0} (P : World → Type 0) (m : M A) : Type 0 where
  pub keeps : (w : World) → P w → P (m w).1

pub continue-Keeps :
    {A B : Type 0} {P : World → Type 0} (r : Result A) {f : A → M B}
    → ((a : A) → Keeps P (f a))
    → Keeps P (continue r f)
continue-Keeps (ok a) h = h a
continue-Keeps (err e) h = record { keeps = λ w p. p }

pub bind-Keeps :
    {A B : Type 0} {P : World → Type 0} {m : M A} {f : A → M B}
    → Keeps P m
    → ((a : A) → Keeps P (f a))
    → Keeps P (m >>= f)
bind-Keeps {m = m} hm hf = record {
  keeps = λ w p. (continue-Keeps (m w).0 hf).keeps (m w).1 (hm.keeps w p);
}

pub if-Keeps :
    {A : Type 0} {P : World → Type 0} (b : Bool) {m n : M A}
    → Keeps P m
    → Keeps P n
    → Keeps P (if b then m else n)
if-Keeps true hm hn = hm
if-Keeps false hm hn = hn

pub same-Keeps : {A : Type 0} {P : World → Type 0} (r : Result A) → Keeps P (λ w. (r, w))
same-Keeps r = record { keeps = λ w p. p }

-- The faults left do not matter to the predicate.
pub record FreeOfFaults (P : World → Type 0) : Type 0 where
  pub free : (w : World) (fs : List Bool) → P w → P (record w { faults = fs })

module _ {P : World → Type 0} (f : FreeOfFaults P) where
  pub draw-keeps : (w : World) → P w → P (draw w).1
  unfolding draw
  draw-keeps w p = f.free w _ p

  pub read-Keeps : {A : Type 0} (g : World → A) → Keeps P (read g)
  unfolding read
  read-Keeps g = record { keeps = λ w p. let q = draw-keeps w p in ground arith }

  pub write-Keeps :
      (g : World → Option World) → ((w w' : World) → g w ≡ some w' → P w → P w') → Keeps P (write g)
  unfolding write
  write-Keeps g h = record {
    keeps = λ w p.
        let q = draw-keeps w p in
        let r = written-keeps (draw w).1 (g (draw w).1) refl q in ground arith;
  }
    where
      written-keeps : (w : World) (r : Option World) → g w ≡ r → P w → P (written r w).1
      written-keeps w none e p = p
      written-keeps w (some w') e p = h w w' e p
