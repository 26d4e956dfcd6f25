-- ===== src/Rbac/Duties.antt =====
-- Which roles can draft and approve.
use gard.Prelude.{
  String, true, List, [], ◌∷◌, ◌++◌, ◌≡◌, refl, sym, subst, ◌↔◌, ◌⊎◌, inl, inr, In, str_in, ◌||◌,
  arith, Bool-cases,
}
use gard.Rbac.{
  Role, system_admin, lifecycle_manager, change_approver, Principal, role_permissions,
  permissions_of, has, draft_uplift_wave, approve_uplift_wave, manage_exception, approve_exception,
}

str_in-append :
    (x : String) (xs ys : List String) → str_in x (xs ++ ys) ≡ (str_in x xs || str_in x ys)
str_in-append x [] ys = refl
str_in-append x (y ∷ xs) ys = ground (arith, str_in-append x xs ys)

-- A permission comes from one of the roles.
granted :
    (p : String) (roles : List Role)
    → str_in p (permissions_of roles) ≡ true
    → (r : Role) × In r roles × (str_in p (role_permissions r) ≡ true)
granted p [] h = absurd (cc h)
granted p (r ∷ roles) h = elim (Bool-cases (str_in p (role_permissions r))) [
  | inl e ↦ (r, inl refl, e)
  | inr e ↦
      let (q, i, k) =
        granted p roles
          (rw (str_in-append p (role_permissions r) (permissions_of roles), e) at h) in
      (q, inr i, k)
]

granting :
    (p : String) (roles : List Role) (r : Role)
    → In r roles
    → str_in p (role_permissions r) ≡ true
    → str_in p (permissions_of roles) ≡ true
granting p [] r i h = absurd i
granting p (q ∷ roles) r (inl e) h =
    rw (str_in-append p (role_permissions q) (permissions_of roles), sym e, h) refl
granting p (q ∷ roles) r (inr i) h =
    rw (str_in-append p (role_permissions q) (permissions_of roles), granting p roles r i h)
      (ground arith)

-- The roles are the two that grant the permission.
abbrev GrantedBy : String → Role → Role → Type 0
GrantedBy p a b =
    (str_in p (role_permissions a) ≡ true)
    × (str_in p (role_permissions b) ≡ true)
    × ((r : Role) → str_in p (role_permissions r) ≡ true → (r ≡ a) ⊎ (r ≡ b))

has-GrantedBy :
    (p : Principal) (permission : String) (a b : Role)
    → GrantedBy permission a b
    → (has p permission ≡ true) ↔ (In a p.roles ⊎ In b p.roles)
unfolding has
has-GrantedBy p permission a b (ga, gb, only) = (
  λ h.
      let (r, i, k) = granted permission p.roles h in
      elim (only r k) [
        | inl e ↦ inl (subst (λ x. In x p.roles) e i)
        | inr e ↦ inr (subst (λ x. In x p.roles) e i)
      ],
  elim [ inl i ↦ granting permission p.roles a i ga | inr i ↦ granting permission p.roles b i gb ],
)

draft_duty : GrantedBy draft_uplift_wave system_admin lifecycle_manager
draft_duty = (refl, refl, λ r h. ground arith)

approve_duty : GrantedBy approve_uplift_wave system_admin change_approver
approve_duty = (refl, refl, λ r h. ground arith)

file_duty : GrantedBy manage_exception system_admin lifecycle_manager
file_duty = (refl, refl, λ r h. ground arith)

review_duty : GrantedBy approve_exception system_admin change_approver
review_duty = (refl, refl, λ r h. ground arith)

-- the caller is an administrator, or has one role of each side
abbrev pub HasBothSides : List Role → Type 0
HasBothSides roles = In system_admin roles ⊎ (In lifecycle_manager roles × In change_approver roles)

both : {A B C D E : Type 0} → A ↔ (C ⊎ D) → B ↔ (C ⊎ E) → (A × B) ↔ (C ⊎ (D × E))
both f g = (
  λ h. elim (f.0 h.0) [
    | inl c ↦ inl c
    | inr d ↦ elim (g.0 h.1) [ inl c ↦ inl c | inr e ↦ inr (d, e) ]
  ],
  elim [ inl c ↦ (f.1 (inl c), g.1 (inl c)) | inr de ↦ (f.1 (inr de.0), g.1 (inr de.1)) ],
)

-- A caller may both draft and approve uplift waves exactly where it is a system administrator or
-- has both the lifecycle manager's and the change approver's role; the same holds of filing and
-- approving exceptions.
pub has-HasBothSides :
    (p : Principal)
    → (((has p draft_uplift_wave ≡ true) × (has p approve_uplift_wave ≡ true))
        ↔ HasBothSides p.roles)
      × (((has p manage_exception ≡ true) × (has p approve_exception ≡ true))
          ↔ HasBothSides p.roles)
has-HasBothSides p = (
  both (has-GrantedBy p _ _ _ draft_duty) (has-GrantedBy p _ _ _ approve_duty),
  both (has-GrantedBy p _ _ _ file_duty) (has-GrantedBy p _ _ _ review_duty),
)
