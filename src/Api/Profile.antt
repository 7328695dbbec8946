-- ===== src/Api/Profile.antt =====
-- internal/api/me.go: what a reply of me shows of the tables.
use braelaspin.Prelude.{
  pos, ◌+◌, ◌+ℤ◌, ◌++◌, ◌↔◌, ◌&&◌, ◌==◌, true, none, Option, List, [], ◌∷◌, codes, Bool-cases, inl,
  inr, int_laws, ℕ, ℤ, ltb_ℤ, ◌∙◌, if◌then◌else◌, ◌≤ℤ◌, ◌≡◌, refl, some, Text, ok, arith,
}
use braelaspin.Database.{Entry, Kind, referral, Db, User, Balances, find_user, find_wallet}
use braelaspin.Database.Monad.{World, Exec}
use braelaspin.Database.Steps.{bind-ok, statement-ok, served, served-db}
use braelaspin.Errors.{Error}
use braelaspin.Wallet.{get, get_house}
use braelaspin.Wallet.Statements.{select_wallet, select_house, withdrawable, is_referral}
use braelaspin.Wheel.Stake.{max_affordable_stake}
use braelaspin.Spin.{Economics, Config, config}
use braelaspin.Users.{by_id, referral_stats}
use braelaspin.Users.Statements.{
  ReferralStats, select_user, select_referral_stats, count_referred, commissions, refers_to_self,
}
use braelaspin.Calls.Ensures.{Ensures, Ensures-or_fail, Ensures-on_part}
use braelaspin.Tokens.{Site, on_world}
use braelaspin.Calls.{pure, or_fail, bind-ok as call-ok}
use braelaspin.Api.Accounts.{user_dto}
use braelaspin.Api.Me.{MeResp, to_balances, service_failure, me_failure, me}
use braelaspin.Http.{Response, json, Failure}

select_user-ok :
    (uid : ℕ) (w w' : World) (u : User)
    → select_user uid w ≡ ok (u, w')
    → (find_user uid w.db.users ≡ some u) × (w'.db ≡ w.db)
unfolding select_user
select_user-ok uid w w' u e = ground arith

select_wallet-ok :
    (uid : ℕ) (w w' : World) (b : Balances)
    → select_wallet uid w ≡ ok (b, w')
    → (find_wallet uid w.db.wallets ≡ some b) × (w'.db ≡ w.db)
unfolding select_wallet
select_wallet-ok uid w w' b e = ground arith

select_referral_stats-ok :
    (uid : ℕ) (w w' : World) (st : ReferralStats)
    → select_referral_stats uid w ≡ ok (st, w')
    → ((st.count ≡ count_referred uid w.db.users)
        × (st.earned_cents ≡ commissions uid w.db.transactions))
      × (w'.db ≡ w.db)
unfolding select_referral_stats
select_referral_stats-ok uid w w' st e = ground arith

by_id-ok :
    (uid : ℕ) (w w' : World) (u : User)
    → by_id uid w ≡ (ok u, w')
    → (find_user uid w.db.users ≡ some u) × (w'.db ≡ w.db)
unfolding by_id
by_id-ok uid w w' u e =
    rw (served-db w) at (select_user-ok uid (served w) w' u (statement-ok _ _ w u w' e))

get-ok :
    (uid : ℕ) (w w' : World) (b : Balances)
    → get uid w ≡ (ok b, w')
    → (find_wallet uid w.db.wallets ≡ some b) × (w'.db ≡ w.db)
unfolding get
get-ok uid w w' b e =
    rw (served-db w) at (select_wallet-ok uid (served w) w' b (statement-ok _ _ w b w' e))

referral_stats-ok :
    (uid : ℕ) (w w' : World) (st : ReferralStats)
    → referral_stats uid w ≡ (ok st, w')
    → ((st.count ≡ count_referred uid w.db.users)
        × (st.earned_cents ≡ commissions uid w.db.transactions))
      × (w'.db ≡ w.db)
unfolding referral_stats
referral_stats-ok uid w w' st e =
    rw (served-db w) at (select_referral_stats-ok uid (served w) w' st (statement-ok _ _ w st w' e))

lesser-le : (x y : ℤ) → (if ltb_ℤ x y then x else y) ≤ℤ x
lesser-le x y = ground arith

config-ok :
    (econ : Economics) (w w' : World) (c : Config)
    → config econ w ≡ (ok c, w')
    → (c.max_stake_cents ≤ℤ max_affordable_stake w.db.house.bankroll_cents) × (w'.db ≡ w.db)
unfolding config get_house select_house
config-ok econ w w' c e =
    let k = bind-ok _ _ w c w' e in
    let h = statement-ok select_house _ w k.value k.middle k.first in
    let house : k.value ≡ w.db.house = ground arith in
    let same : k.middle.db ≡ w.db = ground arith in
    let after : w'.db ≡ w.db = ground arith in
    let shown : c.max_stake_cents ≡ (
        if ltb_ℤ (max_affordable_stake k.value.bankroll_cents) econ.max_stake_cents
        then max_affordable_stake k.value.bankroll_cents
        else econ.max_stake_cents) =
      cc in
    (
      rw (shown, house)
          (lesser-le (max_affordable_stake w.db.house.bankroll_cents) econ.max_stake_cents),
      after,
    )

-- The sum of a value over the rows that have a property.
pub data Tally {A : Type 0} (P : A → Type 0) (value : A → ℤ) : List A → ℤ → Type 0 where
  none_left : Tally P value [] (pos 0)
  counted :
      {a : A} {rows : List A} {n : ℤ}
      → P a
      → Tally P value rows n
      → Tally P value (a ∷ rows) (value a +ℤ n)
  passed :
      {a : A} {rows : List A} {n : ℤ} → ¬ P a → Tally P value rows n → Tally P value (a ∷ rows) n

-- A commission of a player.
abbrev pub IsCommission : ℕ → Entry → Type 0
IsCommission uid e = (e.kind ≡ referral) × (e.user_id ≡ uid)

-- What the reply of me shows of the tables: the columns of the caller's own rows, how many accounts name the
-- caller as their referrer, and the sum of the caller's commissions.
pub record IsOwn (base_url : Text) (uid : ℕ) (db : Db) (x : Response MeResp) : Type 0 where
  pub body : MeResp
  pub owner : User
  pub purse : Balances
  pub reply_is : x ≡ json 200 body
  pub owner_is : find_user uid db.users ≡ some owner
  pub id_is : body.user.id ≡ owner.id
  pub phone_is : body.user.phone ≡ owner.phone
  pub ref_code_is : body.user.ref_code ≡ owner.ref_code
  pub ref_link_is : body.user.ref_link ≡ base_url ++ (codes "/r/" ++ owner.ref_code)
  pub phone_verified_is : body.user.phone_verified ≡ owner.phone_verified
  pub is_admin_is : body.user.is_admin ≡ owner.is_admin
  pub purse_is : find_wallet uid db.wallets ≡ some purse
  pub real_is : body.balances.real_cents ≡ purse.real_cents
  pub demo_is : body.balances.demo_cents ≡ purse.demo_cents
  pub held_is : body.balances.held_cents ≡ purse.held_cents
  pub withdrawable_is : body.balances.withdrawable_cents ≡ purse.real_cents
  pub stake_is_covered : body.game.max_stake_cents ≤ℤ max_affordable_stake db.house.bankroll_cents
  pub referred :
      Tally (λ u. u.referred_by ≡ some uid) (λ u. pos 1) db.users (pos body.referrals.count)
  pub earned :
      Tally (IsCommission uid) (λ e. e.amount_cents) db.transactions body.referrals.earned_cents

refers_to_self_lem : (uid : ℕ) (o : Option ℕ) → (refers_to_self uid o ≡ true) ↔ (o ≡ some uid)
refers_to_self_lem uid none = (λ h. cc, λ h. cc)
refers_to_self_lem uid (some r) = ground arith

is_referral_lem : (k : Kind) → (is_referral k ≡ true) ↔ (k ≡ referral)
is_referral_lem k = ground arith

count_referred-Tally :
    (uid : ℕ) (us : List User)
    → Tally (λ u. u.referred_by ≡ some uid) (λ u. pos 1) us (pos (count_referred uid us))
unfolding count_referred
count_referred-Tally uid [] = Tally.none_left
count_referred-Tally uid (u ∷ us) =
    let iff = refers_to_self_lem uid u.referred_by in
    elim (Bool-cases (refers_to_self uid u.referred_by)) [
      | inl hit ↦
          let more : pos (count_referred uid us + 1) ≡ pos 1 +ℤ pos (count_referred uid us) =
            omega int_laws in
          rw (hit, more) (Tally.counted (iff.0 hit) (count_referred-Tally uid us))
      | inr miss ↦
          rw miss (Tally.passed (λ h. let it = iff.1 h in cc) (count_referred-Tally uid us))
    ]

is_commission_lem :
    (uid : ℕ) (e : Entry) → ((is_referral e.kind && (e.user_id == uid)) ≡ true) ↔ IsCommission uid e
is_commission_lem uid e = ground (arith, is_referral_lem e.kind)

commissions-Tally :
    (uid : ℕ) (es : List Entry)
    → Tally (IsCommission uid) (λ e. e.amount_cents) es (commissions uid es)
unfolding commissions
commissions-Tally uid [] = Tally.none_left
commissions-Tally uid (e ∷ es) =
    let iff = is_commission_lem uid e in
    elim (Bool-cases (is_referral e.kind && (e.user_id == uid))) [
      | inl hit ↦ rw hit (Tally.counted (iff.0 hit) (commissions-Tally uid es))
      | inr miss ↦ rw miss (Tally.passed (λ h. let it = iff.1 h in cc) (commissions-Tally uid es))
    ]

-- A query of me changes no table, and its result is one for the tables it was asked from.
asked :
    {S A : Type 0} (F : Db → A → Type 0) (m : Exec Error A) (c : Error → Failure)
    → ((w w' : World) (a : A) → m w ≡ (ok a, w') → F w.db a × (w'.db ≡ w.db))
    → (db : Db)
    → Ensures
        (λ t. t.world.db ≡ db)
        (or_fail (on_world {S = S} m) c)
        (λ a t. F db a × (t.world.db ≡ db))
asked {S} F m c h db = Ensures-or_fail _ c (
    Ensures-on_part {Q = λ a w. F db a × (w.db ≡ db)} _ _ m (λ y z. refl)
      record { at = λ w w' a here e. let k = h w w' a e in (rw here at k.0, k.1 ∙ here) })

pure-ok :
    {S E A : Type 0} (y x : A) (s s' : S)
    → pure {S = S} {E = E} y s ≡ (ok x, s')
    → (x ≡ y) × (s' ≡ s)
pure-ok y x s s' e = (cc, cc)

-- A player sees their own account. Where me replies, the user and the balances are the columns of the
-- caller's rows, with all of the real balance withdrawable; the referrals are the number of the accounts
-- that name the caller as their referrer, and the sum of the caller's commissions in the ledger; the
-- maximum stake shown is at most the one that the bankroll can afford; and no table has changed.
pub me-IsOwn :
    {S : Type 0} (base_url : Text) (econ : Economics) (uid : ℕ) (t t' : Site S)
    (x : Response MeResp)
    → me base_url econ uid t ≡ (ok x, t')
    → IsOwn base_url uid t.world.db x × (t'.world.db ≡ t.world.db)
unfolding me user_dto to_balances withdrawable
me-IsOwn {S} base_url econ uid t t' x e =
    let db = t.world.db in
    let (u, t1, e1, h1) = call-ok _ _ t t' x e in
    let of_user =
      (asked (λ db u. find_user uid db.users ≡ some u) (by_id uid) me_failure (by_id-ok uid) db).at
        t t1 u refl e1 in
    let (b, t2, e2, h2) = call-ok _ _ t1 t' x h1 in
    let of_wallet =
      (asked (λ db b. find_wallet uid db.wallets ≡ some b) (get uid) service_failure (get-ok uid)
          db).at
        t1 t2 b of_user.1 e2 in
    let (c, t3, e3, h3) = call-ok _ _ t2 t' x h2 in
    let of_game =
      (asked (λ db c. c.max_stake_cents ≤ℤ max_affordable_stake db.house.bankroll_cents)
          (config econ) service_failure (config-ok econ) db).at
        t2 t3 c of_wallet.1 e3 in
    let (st, t4, e4, h4) = call-ok _ _ t3 t' x h3 in
    let of_stats =
      (asked
          (λ db st.
            (st.count ≡ count_referred uid db.users)
            × (st.earned_cents ≡ commissions uid db.transactions))
          (referral_stats uid) service_failure (referral_stats-ok uid) db).at
        t3 t4 st of_game.1 e4 in
    let (reply, still) = pure-ok _ x t4 t' h4 in
    let body : MeResp = record {
      user = user_dto base_url u;
      balances = to_balances b;
      game = c;
      referrals = st;
    } in
    (
      record {
        body = body;
        owner = u;
        purse = b;
        reply_is = reply;
        owner_is = of_user.0;
        id_is = refl;
        phone_is = refl;
        ref_code_is = refl;
        ref_link_is = refl;
        phone_verified_is = refl;
        is_admin_is = refl;
        purse_is = of_wallet.0;
        real_is = refl;
        demo_is = refl;
        held_is = refl;
        withdrawable_is = refl;
        stake_is_covered = of_game.0;
        referred = rw of_stats.0.0 (count_referred-Tally uid db.users);
        earned = rw of_stats.0.1 (commissions-Tally uid db.transactions);
      },
      rw still (of_stats.1),
    )
