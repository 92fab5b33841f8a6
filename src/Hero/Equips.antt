-- ===== src/Hero/Equips.antt =====
-- gameserver/DreamHero.cpp: the loop of SendClientInit that sends the equips, in batches, with the
-- generated accessors of S2CMsgEquipInit (common/message/dream_hero.pb.h). `clear_equip` empties the
-- nested message and marks it as absent; the loop's pointer goes on writing to it.
use hardware_server.Prelude.{
  ℕ, zero, suc, ◌+◌, ◌<◌, ◌≡◌, refl, ◌∙◌, inl, inr, Bool, true, false, ◌||◌, List, [], ◌∷◌, ◌++◌,
  arith, ◌==◌, leb, ltb, if◌then◌else◌, length, length-append, take, append_assoc, append-nil,
  Bool-cases,
}

-- S2CMsgEquipInit with its S2CMsgHeroEquip; `present` is the has bit of the nested message.
pub record EquipInit {ℓ} (A : Type ℓ) : Type ℓ where
  pub present : Bool
  pub equips : List A
  pub begin : Bool
  pub end : Bool

module _ {ℓ} {A : Type ℓ} where
  abbrev pub cleared : EquipInit A
  cleared = record { present = false; equips = []; begin = false; end = false }

  -- The body of the loop before the test for sending: `current` is current_count, `nth` is
  -- current_equip_count and `total` is max_count_equip.
  unfoldable pub add_equip : ℕ → ℕ → ℕ → EquipInit A → A → EquipInit A
  add_equip total current nth m e = record {
    present = m.present || (current == 0);
    equips = m.equips ++ e ∷ [];
    begin = m.begin || (nth == 1);
    end = m.end || (nth == total);
  }

  -- The loop, and the batch that is sent after it if it is not empty (`mutable_equip` marks it
  -- present). `sent` holds the messages so far.
  unfoldable pub init_loop :
      ℕ → ℕ → ℕ → EquipInit A → List (EquipInit A) → List A → List (EquipInit A)
  unfolding add_equip
  init_loop total current nth m sent [] =
      if ltb 0 (length m.equips) then sent ++ record m { present = true } ∷ [] else sent
  init_loop total current nth m sent (e ∷ es) =
      let m' = add_equip total current nth m e in
      init_loop total (current + 1) (nth + 1) (if leb 40 current then cleared else m')
        (if leb 40 current then sent ++ m' ∷ [] else sent) es

  -- The messages that `SendClientInit` sends for the equips.
  unfoldable pub send_equips : List A → List (EquipInit A)
  unfolding init_loop
  send_equips es = init_loop (length es) 0 1 (record cleared { present = true }) [] es

  -- What the client gets from the messages: those with the nested message.
  abbrev pub received : List (EquipInit A) → List A
  received [] = []
  received (m ∷ ms) = if m.present then m.equips ++ received ms else received ms

  received-append : (xs ys : List (EquipInit A)) → received (xs ++ ys) ≡ received xs ++ received ys
  received-append [] ys = refl
  received-append (m ∷ xs) ys = elim (Bool-cases m.present) [
    | inl p ↦ rw (p, received-append xs ys) (append_assoc⁻ m.equips (received xs) (received ys))
    | inr p ↦ rw (p, received-append xs ys)
  ]
    where
      append_assoc⁻ : (a b c : List A) → a ++ (b ++ c) ≡ (a ++ b) ++ c
      append_assoc⁻ a b c = rw append_assoc

  received_absent :
      (sent : List (EquipInit A)) (m : EquipInit A)
      → m.present ≡ false
      → received (sent ++ m ∷ []) ≡ received sent
  received_absent sent m p = received-append sent (m ∷ []) ∙ rw p (append-nil (received sent))

  -- After the first batch nothing that is sent is present.
  late :
      (total current nth : ℕ) (sent : List (EquipInit A)) (es : List A)
      → 40 < current
      → received (init_loop total current nth cleared sent es) ≡ received sent
  unfolding init_loop
  late total current nth sent [] h = refl
  late total current nth sent (e ∷ es) h =
      let full : leb 40 current ≡ true = ground arith in
      let m : EquipInit A = add_equip total current nth cleared e in
      rw full (
        late total (current + 1) (nth + 1) (sent ++ m ∷ []) es (omega arith)
        ∙ received_absent sent m (ground arith))

  last_batch :
      (l : List A) (b e : Bool) (k : ℕ)
      → received (
          if ltb 0 (length l)
          then record { present = true; equips = l; begin = b; end = e } ∷ []
          else [])
        ≡ l ++ take k []
  last_batch [] b e zero = refl
  last_batch [] b e (suc k) = refl
  last_batch (x ∷ l) b e zero =
      let some_left : ltb 0 (suc (length l)) ≡ true = ground arith in rw some_left
  last_batch (x ∷ l) b e (suc k) =
      let some_left : ltb 0 (suc (length l)) ≡ true = ground arith in rw some_left

  early :
      (total current nth k : ℕ) (m : EquipInit A) (es : List A)
      → m.present ≡ true
      → length m.equips ≡ current
      → current + k ≡ 41
      → 0 < k
      → received (init_loop total current nth m [] es) ≡ m.equips ++ take k es
  unfolding init_loop
  early total current nth k m [] p l c positive = last_batch m.equips m.begin m.end k
  early total current nth zero m (e ∷ es) p l c positive = absurd (omega arith)
  early total current nth (suc k) m (e ∷ es) p l c positive = elim (Bool-cases (leb 40 current)) [
    | inl full ↦
        let m' : EquipInit A = add_equip total current nth m e in
        let none_left : k ≡ 0 = ground arith in
        rw (full, none_left)
          (late total (current + 1) (nth + 1) (m' ∷ []) es (ground arith)
            ∙ rw p (append_assoc m.equips (e ∷ []) []))
    | inr room ↦
        let m' : EquipInit A = add_equip total current nth m e in
        rw room (
          early total (current + 1) (nth + 1) k m' es (rw p)
            (ground (arith, length-append m.equips (e ∷ []))) (omega arith) (ground arith)
          ∙ append_assoc m.equips (e ∷ []) (take k es))
  ]

  -- Of a hero's equips the client gets the first 41, in their order, whatever their number.
  pub received-send_equips : (es : List A) → received (send_equips es) ≡ take 41 es
  unfolding send_equips
  received-send_equips es =
      early (length es) 0 1 41 (record cleared { present = true }) es refl refl refl (omega arith)
