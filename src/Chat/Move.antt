-- ===== src/Chat/Move.antt =====
-- Each player stands in the list of its own sector, once, and in no other.
use game_programmer_portfoli.Base.{
  count, one_if, count-append, ℕ, ◌+◌, ◌<◌, ◌≡◌, refl, ap, ◌∙◌, inl, inr, Bool, true, [], ◌∷◌, ◌++◌,
  ◌&&◌, ◌||◌, ◌==◌, ==_iff, leb, if◌then◌else◌, arith, Bool-cases,
}
use game_programmer_portfoli.Chat.{
  Player, Field, sector_cnt_x, sector_cnt_y, update, set_players, erase_player_from_sector,
  move_player_sector,
}
use game_programmer_portfoli.Chat.Swap.{count-erase_player}

-- The player's own position is (x, y).
abbrev pub stands : Player → ℕ → ℕ → Bool
stands p x y = (p.sector_x == x) && (p.sector_y == y)

unfoldable pub IsPlaced : Field → Type 0
IsPlaced f =
    (q x y : ℕ)
    → x < sector_cnt_x
    → y < sector_cnt_y
    → count q (f.sectors y x) ≡ one_if (stands (f.players q) x y)

-- Behind `erasePlayerFromSector` the player stands in no sector, the others where they stood.
pub erase_lem :
    (f : Field) (p q x y : ℕ)
    → IsPlaced f
    → x < sector_cnt_x
    → y < sector_cnt_y
    → count q ((erase_player_from_sector f p).sectors y x)
      ≡ (if p == q then 0 else one_if (stands (f.players q) x y))
unfolding IsPlaced erase_player_from_sector set_players
erase_lem f p q x y v hx hy = ground (
  arith,
  v q x y hx hy,
  v p x y hx hy,
  count-erase_player q p (f.sectors y x),
  ==_iff p q,
  ==_iff y (f.players p).sector_y,
  ==_iff x (f.players p).sector_x,
)

erase-players : (f : Field) (p : ℕ) → (erase_player_from_sector f p).players ≡ f.players
unfolding erase_player_from_sector
erase-players f p = ground arith

-- The move behind the checks of the new sector.
abbrev placed : Field → ℕ → ℕ → ℕ → Field
placed g p new_x new_y = record {
  players = update g.players p (record (g.players p) { sector_x = new_x; sector_y = new_y });
  sectors = set_players g.sectors new_y new_x (g.sectors new_y new_x ++ (p ∷ []));
}

count-placed :
    (g : Field) (p q x y new_x new_y : ℕ)
    → count q ((placed g p new_x new_y).sectors y x)
      ≡ count q (g.sectors y x) + (if (y == new_y) && (x == new_x) then one_if (p == q) else 0)
unfolding set_players count
count-placed g p q x y new_x new_y =
    ground (arith, count-append q (g.sectors new_y new_x) (p ∷ []), ==_iff y new_y, ==_iff x new_x)

placed-stands :
    (players old : ℕ → Player) (p q x y new_x new_y : ℕ)
    → players q ≡ old q
    → (if p == q then 0 else one_if (stands (old q) x y))
        + (if (y == new_y) && (x == new_x) then one_if (p == q) else 0)
      ≡ one_if (
          stands
            (update players p (record (players p) { sector_x = new_x; sector_y = new_y }) q)
            x
            y)
placed-stands players old p q x y new_x new_y e = ground (
  arith,
  ap (λ s. s.sector_x) e,
  ap (λ s. s.sector_y) e,
  ==_iff p q,
  ==_iff q p,
  ==_iff x new_x,
  ==_iff new_x x,
  ==_iff y new_y,
  ==_iff new_y y,
)

placed-IsPlaced :
    (f : Field) (p new_x new_y : ℕ)
    → IsPlaced f
    → IsPlaced (placed (erase_player_from_sector f p) p new_x new_y)
unfolding IsPlaced
placed-IsPlaced f p new_x new_y v q x y hx hy =
    let g : Field = erase_player_from_sector f p in
    count-placed g p q x y new_x new_y
    ∙ ap (λ n. n + (if (y == new_y) && (x == new_x) then one_if (p == q) else 0))
        (erase_lem f p q x y v hx hy)
    ∙ placed-stands g.players f.players p q x y new_x new_y (ap (λ ps. ps q) (erase-players f p))

placed_there :
    (players : ℕ → Player) (p new_x new_y : ℕ)
    → stands
        (update players p (record (players p) { sector_x = new_x; sector_y = new_y }) p)
        new_x
        new_y
      ≡ true
placed_there players p new_x new_y =
    ground (arith, ==_iff p p, ==_iff new_x new_x, ==_iff new_y new_y)

placed_other :
    (players old : ℕ → Player) (p q new_x new_y : ℕ)
    → (q ≡ p → ⊥)
    → players q ≡ old q
    → update players p (record (players p) { sector_x = new_x; sector_y = new_y }) q ≡ old q
placed_other players old p q new_x new_y n e = ground (arith, ==_iff q p)

-- If every player stands in the list of its own sector, once, and in no other, `movePlayerSector`
-- to any pair of coordinates keeps it so; if the new sector is one of the map the player has its
-- coordinates then; and no other player's record changes.
pub move_player_sector-IsPlaced :
    (f : Field) (p new_x new_y : ℕ)
    → IsPlaced f
    → let g = move_player_sector f p new_x new_y in
      IsPlaced g
      × (new_x < sector_cnt_x → new_y < sector_cnt_y → stands (g.players p) new_x new_y ≡ true)
      × ((q : ℕ) → (q ≡ p → ⊥) → g.players q ≡ f.players q)
unfolding move_player_sector
move_player_sector-IsPlaced f p new_x new_y v =
    elim (Bool-cases (leb sector_cnt_x new_x || leb sector_cnt_y new_y)) [
      | inl out ↦
          rw (move_player_sector, out) (v, λ hx hy. absurd (ground (arith, out)), λ q n. refl)
      | inr within ↦ elim (Bool-cases (stands (f.players p) new_x new_y)) [
        | inl same ↦ rw (move_player_sector, within, same) (v, λ hx hy. same, λ q n. refl)
        | inr other ↦
            rw (move_player_sector, within, other)
              (
                placed-IsPlaced f p new_x new_y v,
                λ hx hy. placed_there (erase_player_from_sector f p).players p new_x new_y,
                λ q n.
                    placed_other (erase_player_from_sector f p).players f.players p q new_x new_y n
                      (ap (λ ps. ps q) (erase-players f p)),
              )
      ]
    ]
