-- ===== src/Apps/Chosen.antt =====
-- The choice of `launch_installed_app` (waterbox/machine.cpp).
use chimera_core_eka2l.Prelude.{
  ℕ, ◌≤◌, ◌<◌, ◌≡◌, ◌⊎◌, refl, sym, true, false, ◌||◌, some, List, [], ◌∷◌, ltb, ◌==◌,
  if◌then◌else◌, arith, subst, Bool-cases, inl, inr,
}
use chimera_core_eka2l.Apps.{AppList, Apps, holds, choose, launch_app, launch_installed_app}

-- An application of the list that was not there before.
pub record IsNew (before uids : List ℕ) (uid : ℕ) : Type 0 where
  pub listed : holds uid uids ≡ true
  pub fresh : holds uid before ≡ false
  pub real : 0 < uid

-- What the loop's variable is: none yet, or the least new one.
pub record Chosen (before uids : List ℕ) (start chosen : ℕ) : Type 0 where
  pub from : (chosen ≡ start) ⊎ IsNew before uids chosen
  pub kept : 0 < start → chosen ≤ start
  pub made : 0 < start → 0 < chosen
  pub least : (uid : ℕ) → IsNew before uids uid → (0 < chosen) × (chosen ≤ uid)

abbrev next : List ℕ → ℕ → ℕ → ℕ
next before uid chosen =
    if holds uid before then chosen else if chosen == 0 || ltb uid chosen then uid else chosen

holds_next :
    (uid x : ℕ) (xs : List ℕ) → holds uid (x ∷ xs) ≡ true → (x ≡ uid) ⊎ (holds uid xs ≡ true)
unfolding holds
holds_next uid x xs h = ground arith

holds_there : (uid x : ℕ) (xs : List ℕ) → holds uid xs ≡ true → holds uid (x ∷ xs) ≡ true
unfolding holds
holds_there uid x xs h = ground arith

holds_here : (x : ℕ) (xs : List ℕ) → holds x (x ∷ xs) ≡ true
unfolding holds
holds_here x xs = ground arith

IsNew-there :
    (before uids : List ℕ) (x uid : ℕ) → IsNew before uids uid → IsNew before (x ∷ uids) uid
IsNew-there before uids x uid n = record {
  listed = holds_there uid x uids n.listed;
  fresh = n.fresh;
  real = n.real;
}

-- One round with a variable that stays, because the application is old or no less.
stays :
    (before uids : List ℕ) (x start c : ℕ)
    → (IsNew before (x ∷ uids) x → (0 < start) × (start ≤ x))
    → Chosen before uids start c
    → Chosen before (x ∷ uids) start c
stays before uids x start c old ih = record {
  from = elim ih.from [ inl same ↦ inl same | inr n ↦ inr (IsNew-there before uids x c n) ];
  kept = ih.kept;
  made = ih.made;
  least = λ uid n. elim (holds_next uid x uids n.listed) [
    | inl same ↦
        let below = old (subst (IsNew before (x ∷ uids)) (sym same) n) in
        (ih.made below.0, omega (arith, ih.kept below.0, below.1, same))
    | inr later ↦ ih.least uid record { listed = later; fresh = n.fresh; real = n.real }
  ];
}

-- One round that takes the application.
takes :
    (before uids : List ℕ) (x start c : ℕ)
    → IsNew before (x ∷ uids) x
    → (0 < start → x < start)
    → Chosen before uids x c
    → Chosen before (x ∷ uids) start c
takes before uids x start c new smaller ih = record {
  from = inr (elim ih.from [
    | inl same ↦ subst (IsNew before (x ∷ uids)) (sym same) new
    | inr n ↦ IsNew-there before uids x c n
  ]);
  kept = λ h. omega (arith, ih.kept new.real, smaller h);
  made = λ h. ih.made new.real;
  least = λ uid n. elim (holds_next uid x uids n.listed) [
    | inl same ↦ (ih.made new.real, omega (arith, ih.kept new.real, same))
    | inr later ↦ ih.least uid record { listed = later; fresh = n.fresh; real = n.real }
  ];
}

choose-Chosen :
    (before uids : List ℕ) (start : ℕ)
    → holds 0 uids ≡ false
    → Chosen before uids start (choose before uids start)
unfolding choose holds
choose-Chosen before [] start z = record {
  from = inl refl;
  kept = λ h. omega arith;
  made = λ h. h;
  least = λ uid n. ground (arith, n.listed);
}
choose-Chosen before (x ∷ uids) start z = elim (Bool-cases (holds x before)) [
  | inl old ↦
      rw (old, choose)
        (stays before uids x start _ (λ n. ground (arith, n.fresh))
          (choose-Chosen before uids start (ground arith)))
  | inr fresh ↦ elim (Bool-cases (start == 0 || ltb x start)) [
    | inl smaller ↦
        rw (fresh, smaller, choose)
          (takes before uids x start _
            record { listed = holds_here x uids; fresh = fresh; real = ground arith } (ground arith)
            (choose-Chosen before uids x (ground arith)))
    | inr larger ↦
        rw (fresh, larger, choose)
          (stays before uids x start _ (λ n. ground arith)
            (choose-Chosen before uids start (ground arith)))
  ]
]

-- What `launch_installed_app` answers and leaves.
pub record Launched (a : Apps) (server : AppList) (r : Apps × ℕ) : Type 0 where
  pub chosen :
      (r.1 ≡ 0) ⊎ (IsNew a.apps_before_install server.registerations r.1 × (r.0.launched_uid ≡ r.1))
  pub least :
      0 < r.1 → (uid : ℕ) → IsNew a.apps_before_install server.registerations uid → r.1 ≤ uid
  pub some_new :
      (uid : ℕ)
      → IsNew a.apps_before_install server.registerations uid
      → (0 < r.1)
        ⊎ ((u : ℕ) × IsNew a.apps_before_install server.registerations u
            × (server.launches u ≡ false))

-- `launch_app` of a registered application, by its two answers.
launch_app_lem :
    (a : Apps) (server : AppList) (uid : ℕ)
    → a.applist ≡ some server
    → holds uid server.registerations ≡ true
    → (((launch_app a uid).1 ≡ true) × ((launch_app a uid).0.launched_uid ≡ uid))
      ⊎ (((launch_app a uid).1 ≡ false) × (server.launches uid ≡ false))
unfolding launch_app
launch_app_lem a server uid h listed = ground (arith, h, listed)

abbrev choice : Apps → AppList → ℕ
choice a server = choose a.apps_before_install server.registerations 0

launch_none :
    (a : Apps) (server : AppList)
    → a.applist ≡ some server
    → choice a server ≡ 0
    → launch_installed_app a ≡ (a, 0)
unfolding launch_installed_app
launch_none a server h z = ground (arith, h, z)

launch_taken :
    (a : Apps) (server : AppList)
    → a.applist ≡ some server
    → 0 < choice a server
    → (launch_app a (choice a server)).1 ≡ true
    → launch_installed_app a ≡ ((launch_app a (choice a server)).0, choice a server)
unfolding launch_installed_app
launch_taken a server h z t = ground (arith, h, z, t)

launch_refused :
    (a : Apps) (server : AppList)
    → a.applist ≡ some server
    → 0 < choice a server
    → (launch_app a (choice a server)).1 ≡ false
    → launch_installed_app a ≡ ((launch_app a (choice a server)).0, 0)
unfolding launch_installed_app
launch_refused a server h z t = ground (arith, h, z, t)

-- Where the application list runs and no registration has UID 0: `launch_installed_app` answers 0,
-- or an application that is registered now and was not remembered, the lowest of these, and it is
-- the one launched. Where there is one it answers one, unless the server refuses the launch of one.
pub launch_installed_app_lem :
    (a : Apps) (server : AppList)
    → a.applist ≡ some server
    → holds 0 server.registerations ≡ false
    → Launched a server (launch_installed_app a)
launch_installed_app_lem a server h z =
    let c = choose-Chosen a.apps_before_install server.registerations 0 z in
    elim c.from [
      | inl nothing ↦ subst (Launched a server) (sym (launch_none a server h nothing)) record {
        chosen = inl refl;
        least = λ n. omega arith;
        some_new = λ uid n. inl (omega (arith, (c.least uid n).0, nothing));
      }
      | inr new ↦ elim (launch_app_lem a server (choice a server) h new.listed) [
        | inl took ↦
            subst (Launched a server) (sym (launch_taken a server h new.real took.0)) record {
              chosen = inr (new, took.1);
              least = λ n uid m. (c.least uid m).1;
              some_new = λ uid m. inl new.real;
            }
        | inr left ↦
            subst (Launched a server) (sym (launch_refused a server h new.real left.0)) record {
              chosen = inl refl;
              least = λ n. omega arith;
              some_new = λ uid m. inr (choice a server, new, left.1);
            }
      ]
    ]
