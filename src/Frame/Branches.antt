-- ===== src/Frame/Branches.antt =====
-- A branch of a test keeps what both its ends keep.
use helm_operator.Base.{Bool, true, false, if◌then◌else◌}

pub if-kept :
    {W A : Type 0} (P : W → Type 0) (b : Bool) (x y : A × W)
    → P x.1
    → P y.1
    → P (if b then x else y).1
if-kept P true x y p q = p
if-kept P false x y p q = q

pub if_call-kept :
    {W A : Type 0} (P : W → Type 0) (b : Bool) (f g : W → A × W) (w : W)
    → P (f w).1
    → P (g w).1
    → P ((if b then f else g) w).1
if_call-kept P true f g w p q = p
if_call-kept P false f g w p q = q

pub if_world-kept :
    {W : Type 0} (P : W → Type 0) (b : Bool) (v w : W) → P v → P w → P (if b then v else w)
if_world-kept P true v w p q = p
if_world-kept P false v w p q = q
