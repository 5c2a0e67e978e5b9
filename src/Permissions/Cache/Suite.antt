-- ===== src/Permissions/Cache/Suite.antt =====
-- The tests of src/permissions/cache.rs, as Booleans. A fresh identifier of theirs is a number of
-- its own here.
use alert_distributor.Base.{
  ℕ, ◌≡◌, refl, Bool, true, false, ◌&&◌, [], ◌∷◌, nat_eq, pair_eq, list_eq, ◌==◌, length, nat_beq,
  is_empty,
}
use alert_distributor.HashMap.{get, insert, remove, insert_at, remove_at, put_or_prune}
use alert_distributor.Sort.{sort, nat_ord, pair_ord}
use alert_distributor.Text.{text}
use alert_distributor.Sns.Models.{UserDevice}
use alert_distributor.Permissions.Cache.{State, empty, active_membership, unassign_device}
use alert_distributor.Permissions.Cache.Read.{users_for_unit, units_for, devices_for}
use alert_distributor.Permissions.Cache.Write.{
  apply_user, upsert_membership, delete_membership, upsert_user_unit, delete_user_unit,
  upsert_unit_device, delete_unit_device, upsert_user_device, deactivate_device,
}

abbrev device : ℕ → ℕ → Bool → UserDevice
device id user_id active = record {
  id = id;
  user_id = user_id;
  device_token = text "token";
  platform = text "ios";
  endpoint_arn = text "arn:aws:sns:us-east-1:1:endpoint/GCM/app/x";
  is_active = active;
}

record Escena : Type 0 where
  cache : State
  org : ℕ
  unidad : ℕ
  otra_unidad : ℕ
  owner : ℕ
  miembro : ℕ

abbrev escena : ℕ → ℕ → ℕ → ℕ → ℕ → Escena
escena org unidad otra_unidad owner miembro = record {
  cache = upsert_user_unit org miembro unidad (
      upsert_membership org miembro (text "member") (text "ACTIVE") (
        upsert_membership org owner (text "owner") (text "ACTIVE") (
          upsert_unit_device (text "222") otra_unidad org
            (upsert_unit_device (text "111") unidad org empty))));
  org = org;
  unidad = unidad;
  otra_unidad = otra_unidad;
  owner = owner;
  miembro = miembro;
}

module _ (e : Escena) where
  abbrev owner_ve_todo_y_el_miembro_solo_lo_concedido : Bool
  owner_ve_todo_y_el_miembro_solo_lo_concedido =
      users_for_unit e.cache e.unidad == sort ((e.org, e.owner) ∷ (e.org, e.miembro) ∷ [])
      && users_for_unit e.cache e.otra_unidad == (e.org, e.owner) ∷ []
      && units_for e.cache e.org e.owner == sort (e.unidad ∷ e.otra_unidad ∷ [])
      && units_for e.cache e.org e.miembro == e.unidad ∷ []

  abbrev pausar_la_membresia_quita_todo_y_reactivarla_lo_devuelve : Bool
  pausar_la_membresia_quita_todo_y_reactivarla_lo_devuelve =
      let paused = upsert_membership e.org e.miembro (text "member") (text "INACTIVE") e.cache in
      let back = upsert_membership e.org e.miembro (text "member") (text "ACTIVE") paused in
      users_for_unit paused e.unidad == (e.org, e.owner) ∷ []
      && is_empty (units_for paused e.org e.miembro)
      && units_for back e.org e.miembro == e.unidad ∷ []

  abbrev dar_de_baja_al_usuario_le_quita_todo_aunque_la_membresia_siga : Bool
  dar_de_baja_al_usuario_le_quita_todo_aunque_la_membresia_siga =
      let off = apply_user e.owner (text "INACTIVE") e.cache in
      let on = apply_user e.owner (text "ACTIVE") off in
      is_empty (users_for_unit off e.otra_unidad)
      && is_empty (units_for off e.org e.owner)
      && users_for_unit on e.otra_unidad == (e.org, e.owner) ∷ []

  abbrev quitar_la_membresia_o_la_concesion : Bool
  quitar_la_membresia_o_la_concesion =
      let revoked = delete_user_unit e.miembro e.unidad e.cache in
      let granted = upsert_user_unit e.org e.miembro e.unidad revoked in
      let gone = delete_membership e.org e.miembro granted in
      is_empty (units_for revoked e.org e.miembro)
      && is_empty (units_for gone e.org e.miembro)
      && users_for_unit gone e.unidad == (e.org, e.owner) ∷ []

  abbrev una_concesion_no_cuenta_en_otra_organizacion : ℕ → Bool
  una_concesion_no_cuenta_en_otra_organizacion otra_org = is_empty (
      units_for (upsert_membership otra_org e.owner (text "member") (text "ACTIVE") e.cache)
        otra_org e.owner)

  abbrev mover_un_equipo_cambia_la_organizacion_de_quien_recibe : ℕ → ℕ → ℕ → Bool
  mover_un_equipo_cambia_la_organizacion_de_quien_recibe otra_org otro_owner nueva_unidad =
      let with_owner =
        upsert_membership otra_org otro_owner (text "owner") (text "ACTIVE") e.cache in
      let moved = upsert_unit_device (text "222") nueva_unidad otra_org with_owner in
      let deleted = delete_unit_device (text "111") moved in
      is_empty (users_for_unit moved e.otra_unidad)
      && users_for_unit moved nueva_unidad == (otra_org, otro_owner) ∷ []
      && units_for moved e.org e.owner == e.unidad ∷ []
      && is_empty (units_for deleted e.org e.owner)

  abbrev los_dispositivos_son_de_la_persona_y_los_inactivos_salen : ℕ → Bool
  los_dispositivos_son_de_la_persona_y_los_inactivos_salen id =
      let movil = device id e.owner true in
      let on = upsert_user_device movil e.cache in
      let off = upsert_user_device (record movil { is_active = false }) on in
      let (removed, gone) = deactivate_device movil.id (upsert_user_device movil off) in
      nat_beq (length (devices_for on e.owner)) 1
      && is_empty (devices_for off e.owner)
      && removed
      && is_empty (devices_for gone e.owner)

abbrev scene : Escena
scene = escena 1 11 12 21 22

-- All pass.
pass :
    (owner_ve_todo_y_el_miembro_solo_lo_concedido scene ≡ true)
    × (pausar_la_membresia_quita_todo_y_reactivarla_lo_devuelve scene ≡ true)
    × (dar_de_baja_al_usuario_le_quita_todo_aunque_la_membresia_siga scene ≡ true)
    × (quitar_la_membresia_o_la_concesion scene ≡ true)
    × (una_concesion_no_cuenta_en_otra_organizacion scene 2 ≡ true)
    × (mover_un_equipo_cambia_la_organizacion_de_quien_recibe scene 2 31 13 ≡ true)
    × (los_dispositivos_son_de_la_persona_y_los_inactivos_salen scene 41 ≡ true)
unfolding users_for_unit units_for devices_for get insert remove sort apply_user upsert_membership
    delete_membership upsert_user_unit delete_user_unit upsert_unit_device delete_unit_device
    upsert_user_device deactivate_device unassign_device insert_at remove_at put_or_prune
    active_membership
pass = (refl, refl, refl, refl, refl, refl, refl)
