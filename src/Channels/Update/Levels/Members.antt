-- ===== src/Channels/Update/Levels/Members.antt =====
-- The members' power levels in what Channels/Update/Levels writes.
use sudo_secure_communicatio.Prelude.{
  String, ◌≡◌, refl, ◌⊎◌, inl, inr, Option, none, some, List, [], ◌∷◌, ◌==◌, ◌∙◌, contains, eq_iff,
  eq_refl, Dict, lookup, lookup-insert, true, or_option, or_else, Bool-cases, arith,
}
use sudo_secure_communicatio.Prelude.Int.{ℤ, eq_of_parts}
use sudo_secure_communicatio.Rooms.Entities.{RoomPowerLevels}
use sudo_secure_communicatio.Channels.Entities.{ChannelRole, participant, ChannelPermissionsInput}
use sudo_secure_communicatio.Channels.PowerLevels.{from_entity_to_power_level}
use sudo_secure_communicatio.Channels.Update.Levels.{
  users_of, level_now, keep_level, keep_levels, new_levels,
}

module _ (current : Option RoomPowerLevels) (new_default : ℤ) where
  -- The entries of `users` are the members' present levels.
  abbrev IsPresent : String → Dict ℤ → Type 0
  IsPresent user users = (lookup user users ≡ none) ⊎ (lookup user users ≡ level_now current user)

  -- With `users` and the new default the user has its present level.
  abbrev IsSettled : String → Dict ℤ → Type 0
  IsSettled user users = or_option (lookup user users) (some new_default) ≡ level_now current user

  keep_level-IsPresent :
      (user other : String) (l : Option ℤ) (users : Dict ℤ)
      → level_now current other ≡ l
      → IsPresent user users
      → IsPresent user (keep_level new_default other l users)
  unfolding keep_level
  keep_level-IsPresent user other none users e p = p
  keep_level-IsPresent user other (some l) users e p =
      ground (arith, lookup-insert other user l users, eq_iff other user)

  keep_level-IsSettled :
      (user other : String) (l : Option ℤ) (users : Dict ℤ)
      → level_now current other ≡ l
      → IsSettled user users
      → IsSettled user (keep_level new_default other l users)
  unfolding keep_level
  keep_level-IsSettled user other none users e p = p
  keep_level-IsSettled user other (some l) users e p =
      ground (arith, lookup-insert other user l users, eq_iff other user)

  keep_level-settles :
      (user : String) (l : ℤ) (users : Dict ℤ)
      → level_now current user ≡ some l
      → IsPresent user users
      → IsSettled user (keep_level new_default user (some l) users)
  unfolding keep_level
  keep_level-settles user l users e p =
      ground (arith, lookup-insert user user l users, eq_refl user, eq_of_parts l new_default)

  keep_levels-IsSettled :
      (user : String) (members : List String) (users : Dict ℤ)
      → IsSettled user users
      → IsSettled user (keep_levels current new_default members users)
  unfolding keep_levels
  keep_levels-IsSettled user [] users p = p
  keep_levels-IsSettled user (other ∷ members) users p =
      keep_levels-IsSettled user members
        (keep_level new_default other (level_now current other) users)
        (keep_level-IsSettled user other (level_now current other) users refl p)

  keep_levels-settles :
      (user : String) (l : ℤ) (members : List String) (users : Dict ℤ)
      → level_now current user ≡ some l
      → contains user members ≡ true
      → IsPresent user users
      → IsSettled user (keep_levels current new_default members users)
  unfolding keep_levels
  keep_levels-settles user l [] users e h p = cc
  keep_levels-settles user l (other ∷ members) users e h p = elim (Bool-cases (other == user)) [
    | inl same ↦
        keep_levels-IsSettled user members
          (keep_level new_default other (level_now current other) users)
          (rw ((eq_iff other user).0 same, e) (keep_level-settles user l users e p ∙ e))
    | inr differs ↦
        keep_levels-settles user l members
          (keep_level new_default other (level_now current other) users) e (ground arith)
          (keep_level-IsPresent user other (level_now current other) users refl p)
  ]

users_of-IsPresent :
    (current : Option RoomPowerLevels) (user : String)
    → (lookup user (users_of current) ≡ none)
      ⊎ (lookup user (users_of current) ≡ level_now current user)
unfolding level_now
users_of-IsPresent none user = inl refl
users_of-IsPresent (some levels) user = ground arith

-- Whatever permissions and default role are set, each listed member whose power level was given by
-- the room's old power levels, by its own entry or by the default, has that power level in the new
-- ones.
pub new_levels-keep_members :
    (current : Option RoomPowerLevels) (permissions : Option ChannelPermissionsInput)
    (role : Option ChannelRole) (members : List String) (user : String) (level : ℤ)
    → contains user members ≡ true
    → level_now current user ≡ some level
    → level_now
        (some (
          new_levels permissions role (
            keep_levels current
              (from_entity_to_power_level (or_else role participant))
              members
              (users_of current))))
        user
      ≡ some level
unfolding level_now new_levels
new_levels-keep_members current permissions role members user level listed known =
    keep_levels-settles current (from_entity_to_power_level (or_else role participant)) user level
      members (users_of current) known listed (users_of-IsPresent current user)
    ∙ known
