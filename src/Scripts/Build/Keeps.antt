-- ===== src/Scripts/Build/Keeps.antt =====
-- Properties of the world over the steps of a script.
use pyhdiff.Base.{◌≡◌, refl, ap, Option, none, some, String, Bool, true, false}
use pyhdiff.Scripts.Build.{
  World, Ran, Build, stopped, finished, continue, ◌>>=◌, ◌>>◌, exit_if, given, read_file,
}
use pyhdiff.Scripts.Files.{FilePath, contents_of, find}

module _ (P : World → Type 0) where
  abbrev pub EndsIn : {A : Type 0} → Ran A → Type 0
  EndsIn (stopped e w) = P w
  EndsIn (finished a w) = P w

  abbrev pub Keeps : {A : Type 0} → Build A → Type 0
  Keeps m = (w : World) → P w → EndsIn (m w)

  continue-EndsIn :
      {A B : Type 0} (r : Ran A) (next : A → Build B)
      → EndsIn r
      → ((a : A) → Keeps (next a))
      → EndsIn (continue r next)
  continue-EndsIn (stopped e w) next h k = h
  continue-EndsIn (finished a w) next h k = k a w h

  pub Keeps-bind :
      {A B : Type 0} (first : Build A) (next : A → Build B)
      → Keeps first
      → ((a : A) → Keeps (next a))
      → Keeps (first >>= next)
  Keeps-bind first next h k w p = continue-EndsIn (first w) next (h w p) k

  pub Keeps-then :
      {B : Type 0} (first : Build Unit) (second : Build B)
      → Keeps first
      → Keeps second
      → Keeps (first >> second)
  Keeps-then first second h k = Keeps-bind first (λ _. second) h (λ _. k)

  pub Keeps-exit_if : (b : Bool) (m : String) → Keeps (exit_if b m)
  Keeps-exit_if true m w p = p
  Keeps-exit_if false m w p = p

  pub Keeps-given : {A : Type 0} (o : Option A) → Keeps (given o)
  Keeps-given none w p = p
  Keeps-given (some a) w p = p

  pub Keeps-read_file : (p : FilePath) → Keeps (read_file p)
  Keeps-read_file p w h = Keeps-given (contents_of (find p w.files)) w h

-- How a script that ended went through its first part.
pub record Passed {A B : Type 0} (first : Ran A) (next : A → Build B) (b : B) (w : World)
    : Type 0 where
  pub value : A
  pub between : World
  pub ran : first ≡ finished value between
  pub later : next value between ≡ finished b w

pub finished_through :
    {A B : Type 0} (first : Ran A) (next : A → Build B) {b : B} {w : World}
    → continue first next ≡ finished b w
    → Passed first next b w
finished_through (stopped e v) next h = cc
finished_through (finished a v) next h = record { value = a; between = v; ran = refl; later = h }

-- What holds of the world when a script has ended.
module _ (Q : World → Type 0) where
  abbrev pub Ends : {A : Type 0} → Build A → Type 0
  Ends {A} m = (v w : World) (a : A) → m v ≡ finished a w → Q w

  pub Ends-bind :
      {A B : Type 0} (first : Build A) (next : A → Build B)
      → ((a : A) → Ends (next a))
      → Ends (first >>= next)
  Ends-bind first next k v w b h =
      let p = finished_through (first v) next h in k p.value p.between w b p.later

pub finished-injective :
    {A : Type 0} {a b : A} {v w : World} → finished a v ≡ finished b w → (a ≡ b) × (v ≡ w)
finished-injective {A} {a} {b} {v} {w} h = (ap value_or h, ap world_of h)
  where
    value_or : Ran A → A
    value_or (stopped e u) = a
    value_or (finished x u) = x

    world_of : Ran A → World
    world_of (stopped e u) = u
    world_of (finished x u) = u

pub exit_if_lem :
    (b : Bool) (m : String) (v : World) {u : Unit} {w : World}
    → exit_if b m v ≡ finished u w
    → (b ≡ false) × (v ≡ w)
exit_if_lem true m v h = cc
exit_if_lem false m v h = (refl, (finished-injective h).1)
