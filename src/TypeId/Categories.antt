-- ===== src/TypeId/Categories.antt =====
-- bot/src/type_id/categories.cpp: the categories that the bot names.
use hyperbot.Prelude.{List, [], ◌∷◌}
use hyperbot.TypeId.{TypeCategory, top_category, sub_category}

abbrev pub k_character : TypeCategory
k_character = top_category 1

abbrev pub k_player_character : TypeCategory
k_player_character = sub_category k_character 1

abbrev pub k_non_player_character : TypeCategory
k_non_player_character = sub_category k_character 2

abbrev pub k_monster : TypeCategory
k_monster = sub_category k_non_player_character 1

abbrev pub k_thief_monster : TypeCategory
k_thief_monster = sub_category k_monster 2

abbrev pub k_hunter_monster : TypeCategory
k_hunter_monster = sub_category k_monster 3

abbrev pub k_cos : TypeCategory
k_cos = sub_category k_non_player_character 3

abbrev pub k_cart : TypeCategory
k_cart = sub_category k_cos 1

abbrev pub k_transport : TypeCategory
k_transport = sub_category k_cos 2

abbrev pub k_silk_pet : TypeCategory
k_silk_pet = sub_category k_cos 3

abbrev pub k_gold_pet : TypeCategory
k_gold_pet = sub_category k_cos 4

abbrev pub k_mercenary : TypeCategory
k_mercenary = sub_category k_cos 5

abbrev pub k_captured : TypeCategory
k_captured = sub_category k_cos 6

abbrev pub k_follower : TypeCategory
k_follower = sub_category k_cos 7

abbrev pub k_assaulter : TypeCategory
k_assaulter = sub_category k_cos 8

abbrev pub k_pet_2 : TypeCategory
k_pet_2 = sub_category k_cos 9

abbrev pub k_siege_object : TypeCategory
k_siege_object = sub_category k_non_player_character 4

abbrev pub k_siege_struct : TypeCategory
k_siege_struct = sub_category k_non_player_character 5

abbrev pub k_item : TypeCategory
k_item = top_category 3

abbrev pub k_equipment : TypeCategory
k_equipment = sub_category k_item 1

abbrev pub k_garment : TypeCategory
k_garment = sub_category k_equipment 1

abbrev pub k_protector : TypeCategory
k_protector = sub_category k_equipment 2

abbrev pub k_armor : TypeCategory
k_armor = sub_category k_equipment 3

abbrev pub k_shield : TypeCategory
k_shield = sub_category k_equipment 4

abbrev pub k_chinese_shield : TypeCategory
k_chinese_shield = sub_category k_shield 1

abbrev pub k_european_shield : TypeCategory
k_european_shield = sub_category k_shield 2

abbrev pub k_weapon : TypeCategory
k_weapon = sub_category k_equipment 6

abbrev pub k_sword : TypeCategory
k_sword = sub_category k_weapon 2

abbrev pub k_one_handed_sword : TypeCategory
k_one_handed_sword = sub_category k_weapon 7

abbrev pub k_two_handed_sword : TypeCategory
k_two_handed_sword = sub_category k_weapon 8

abbrev pub k_dual_axe : TypeCategory
k_dual_axe = sub_category k_weapon 9

abbrev pub k_equipment_extra : TypeCategory
k_equipment_extra = sub_category k_equipment 7

abbrev pub k_trader_suit : TypeCategory
k_trader_suit = sub_category k_equipment_extra 1

abbrev pub k_thief_suit : TypeCategory
k_thief_suit = sub_category k_equipment_extra 2

abbrev pub k_hunter_suit : TypeCategory
k_hunter_suit = sub_category k_equipment_extra 3

abbrev pub k_equipment_avatar : TypeCategory
k_equipment_avatar = sub_category k_equipment 13

abbrev pub k_avatar_hat : TypeCategory
k_avatar_hat = sub_category k_equipment_avatar 1

abbrev pub k_avatar_dress : TypeCategory
k_avatar_dress = sub_category k_equipment_avatar 2

abbrev pub k_avatar_accessory : TypeCategory
k_avatar_accessory = sub_category k_equipment_avatar 3

abbrev pub k_expendable : TypeCategory
k_expendable = sub_category k_item 3

abbrev pub k_recovery_potion : TypeCategory
k_recovery_potion = sub_category k_expendable 1

abbrev pub k_hp_potion : TypeCategory
k_hp_potion = sub_category k_recovery_potion 1

abbrev pub k_mp_potion : TypeCategory
k_mp_potion = sub_category k_recovery_potion 2

abbrev pub k_vigor_potion : TypeCategory
k_vigor_potion = sub_category k_recovery_potion 3

abbrev pub k_cure_potion : TypeCategory
k_cure_potion = sub_category k_expendable 2

abbrev pub k_purification_pill : TypeCategory
k_purification_pill = sub_category k_cure_potion 1

abbrev pub k_universal_pill : TypeCategory
k_universal_pill = sub_category k_cure_potion 6

abbrev pub k_scroll : TypeCategory
k_scroll = sub_category k_expendable 3

abbrev pub k_return_scroll : TypeCategory
k_return_scroll = sub_category k_scroll 1

abbrev pub k_reverse_return_scroll : TypeCategory
k_reverse_return_scroll = sub_category k_scroll 3

abbrev pub k_ammo : TypeCategory
k_ammo = sub_category k_expendable 4

abbrev pub k_currency : TypeCategory
k_currency = sub_category k_expendable 5

abbrev pub k_gold : TypeCategory
k_gold = sub_category k_currency 0

abbrev pub k_special_goods : TypeCategory
k_special_goods = sub_category k_expendable 8

abbrev pub k_quest_and_event : TypeCategory
k_quest_and_event = sub_category k_expendable 9

abbrev pub k_alchemy_reinforce : TypeCategory
k_alchemy_reinforce = sub_category k_expendable 10

abbrev pub k_elixir : TypeCategory
k_elixir = sub_category k_alchemy_reinforce 1

abbrev pub k_lucky_powder : TypeCategory
k_lucky_powder = sub_category k_alchemy_reinforce 2

abbrev pub k_special : TypeCategory
k_special = sub_category k_expendable 13

abbrev pub k_resurrection : TypeCategory
k_resurrection = sub_category k_special 6

abbrev pub k_repair : TypeCategory
k_repair = sub_category k_special 7

abbrev pub k_structure : TypeCategory
k_structure = top_category 4

-- Each named category with the one that it was made from.
abbrev pub parents : List (TypeCategory × TypeCategory)
parents =
    (k_character, k_player_character)
    ∷ (k_character, k_non_player_character)
    ∷ (k_non_player_character, k_monster)
    ∷ (k_monster, k_thief_monster)
    ∷ (k_monster, k_hunter_monster)
    ∷ (k_non_player_character, k_cos)
    ∷ (k_cos, k_cart)
    ∷ (k_cos, k_transport)
    ∷ (k_cos, k_silk_pet)
    ∷ (k_cos, k_gold_pet)
    ∷ (k_cos, k_mercenary)
    ∷ (k_cos, k_captured)
    ∷ (k_cos, k_follower)
    ∷ (k_cos, k_assaulter)
    ∷ (k_cos, k_pet_2)
    ∷ (k_non_player_character, k_siege_object)
    ∷ (k_non_player_character, k_siege_struct)
    ∷ (k_item, k_equipment)
    ∷ (k_equipment, k_garment)
    ∷ (k_equipment, k_protector)
    ∷ (k_equipment, k_armor)
    ∷ (k_equipment, k_shield)
    ∷ (k_shield, k_chinese_shield)
    ∷ (k_shield, k_european_shield)
    ∷ (k_equipment, k_weapon)
    ∷ (k_weapon, k_sword)
    ∷ (k_weapon, k_one_handed_sword)
    ∷ (k_weapon, k_two_handed_sword)
    ∷ (k_weapon, k_dual_axe)
    ∷ (k_equipment, k_equipment_extra)
    ∷ (k_equipment_extra, k_trader_suit)
    ∷ (k_equipment_extra, k_thief_suit)
    ∷ (k_equipment_extra, k_hunter_suit)
    ∷ (k_equipment, k_equipment_avatar)
    ∷ (k_equipment_avatar, k_avatar_hat)
    ∷ (k_equipment_avatar, k_avatar_dress)
    ∷ (k_equipment_avatar, k_avatar_accessory)
    ∷ (k_item, k_expendable)
    ∷ (k_expendable, k_recovery_potion)
    ∷ (k_recovery_potion, k_hp_potion)
    ∷ (k_recovery_potion, k_mp_potion)
    ∷ (k_recovery_potion, k_vigor_potion)
    ∷ (k_expendable, k_cure_potion)
    ∷ (k_cure_potion, k_purification_pill)
    ∷ (k_cure_potion, k_universal_pill)
    ∷ (k_expendable, k_scroll)
    ∷ (k_scroll, k_return_scroll)
    ∷ (k_scroll, k_reverse_return_scroll)
    ∷ (k_expendable, k_ammo)
    ∷ (k_expendable, k_currency)
    ∷ (k_currency, k_gold)
    ∷ (k_expendable, k_special_goods)
    ∷ (k_expendable, k_quest_and_event)
    ∷ (k_expendable, k_alchemy_reinforce)
    ∷ (k_alchemy_reinforce, k_elixir)
    ∷ (k_alchemy_reinforce, k_lucky_powder)
    ∷ (k_expendable, k_special)
    ∷ (k_special, k_resurrection)
    ∷ (k_special, k_repair)
    ∷ []
