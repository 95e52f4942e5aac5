-- ===== src/Net6/Reader/Names.antt =====
-- The names of the extended messages of net6/events_ex.go, of which the UUIDs are made.
use twclient.Prelude.{ℕ, List, [], ◌∷◌}

-- "teamsstate@netmsg.ddnet.tw"
abbrev pub name_sv_teams_state : List ℕ
name_sv_teams_state =
    116 ∷ 101 ∷ 97 ∷ 109 ∷ 115 ∷ 115 ∷ 116 ∷ 97 ∷ 116 ∷ 101 ∷ 64 ∷ 110 ∷ 101 ∷ 116 ∷ 109 ∷ 115 ∷ 103
    ∷ 46 ∷ 100 ∷ 100 ∷ 110 ∷ 101 ∷ 116 ∷ 46 ∷ 116 ∷ 119 ∷ []

-- "ddrace-time@netmsg.ddnet.tw"
abbrev pub name_sv_dd_race_time : List ℕ
name_sv_dd_race_time =
    100 ∷ 100 ∷ 114 ∷ 97 ∷ 99 ∷ 101 ∷ 45 ∷ 116 ∷ 105 ∷ 109 ∷ 101 ∷ 64 ∷ 110 ∷ 101 ∷ 116 ∷ 109 ∷ 115
    ∷ 103 ∷ 46 ∷ 100 ∷ 100 ∷ 110 ∷ 101 ∷ 116 ∷ 46 ∷ 116 ∷ 119 ∷ []

-- "record@netmsg.ddnet.tw"
abbrev pub name_sv_record : List ℕ
name_sv_record =
    114 ∷ 101 ∷ 99 ∷ 111 ∷ 114 ∷ 100 ∷ 64 ∷ 110 ∷ 101 ∷ 116 ∷ 109 ∷ 115 ∷ 103 ∷ 46 ∷ 100 ∷ 100 ∷ 110
    ∷ 101 ∷ 116 ∷ 46 ∷ 116 ∷ 119 ∷ []

-- "killmsgteam@netmsg.ddnet.tw"
abbrev pub name_sv_kill_msg_team : List ℕ
name_sv_kill_msg_team =
    107 ∷ 105 ∷ 108 ∷ 108 ∷ 109 ∷ 115 ∷ 103 ∷ 116 ∷ 101 ∷ 97 ∷ 109 ∷ 64 ∷ 110 ∷ 101 ∷ 116 ∷ 109
    ∷ 115 ∷ 103 ∷ 46 ∷ 100 ∷ 100 ∷ 110 ∷ 101 ∷ 116 ∷ 46 ∷ 116 ∷ 119 ∷ []

-- "yourvote@netmsg.ddnet.org"
abbrev pub name_sv_your_vote : List ℕ
name_sv_your_vote =
    121 ∷ 111 ∷ 117 ∷ 114 ∷ 118 ∷ 111 ∷ 116 ∷ 101 ∷ 64 ∷ 110 ∷ 101 ∷ 116 ∷ 109 ∷ 115 ∷ 103 ∷ 46
    ∷ 100 ∷ 100 ∷ 110 ∷ 101 ∷ 116 ∷ 46 ∷ 111 ∷ 114 ∷ 103 ∷ []

-- "racefinish@netmsg.ddnet.org"
abbrev pub name_sv_race_finish : List ℕ
name_sv_race_finish =
    114 ∷ 97 ∷ 99 ∷ 101 ∷ 102 ∷ 105 ∷ 110 ∷ 105 ∷ 115 ∷ 104 ∷ 64 ∷ 110 ∷ 101 ∷ 116 ∷ 109 ∷ 115 ∷ 103
    ∷ 46 ∷ 100 ∷ 100 ∷ 110 ∷ 101 ∷ 116 ∷ 46 ∷ 111 ∷ 114 ∷ 103 ∷ []

-- "commandinfo@netmsg.ddnet.org"
abbrev pub name_sv_command_info : List ℕ
name_sv_command_info =
    99 ∷ 111 ∷ 109 ∷ 109 ∷ 97 ∷ 110 ∷ 100 ∷ 105 ∷ 110 ∷ 102 ∷ 111 ∷ 64 ∷ 110 ∷ 101 ∷ 116 ∷ 109 ∷ 115
    ∷ 103 ∷ 46 ∷ 100 ∷ 100 ∷ 110 ∷ 101 ∷ 116 ∷ 46 ∷ 111 ∷ 114 ∷ 103 ∷ []

-- "commandinfo-remove@netmsg.ddnet.org"
abbrev pub name_sv_command_info_remove : List ℕ
name_sv_command_info_remove =
    99 ∷ 111 ∷ 109 ∷ 109 ∷ 97 ∷ 110 ∷ 100 ∷ 105 ∷ 110 ∷ 102 ∷ 111 ∷ 45 ∷ 114 ∷ 101 ∷ 109 ∷ 111 ∷ 118
    ∷ 101 ∷ 64 ∷ 110 ∷ 101 ∷ 116 ∷ 109 ∷ 115 ∷ 103 ∷ 46 ∷ 100 ∷ 100 ∷ 110 ∷ 101 ∷ 116 ∷ 46 ∷ 111
    ∷ 114 ∷ 103 ∷ []

-- "change-info-cooldown@netmsg.ddnet.org"
abbrev pub name_sv_change_info_cooldown : List ℕ
name_sv_change_info_cooldown =
    99 ∷ 104 ∷ 97 ∷ 110 ∷ 103 ∷ 101 ∷ 45 ∷ 105 ∷ 110 ∷ 102 ∷ 111 ∷ 45 ∷ 99 ∷ 111 ∷ 111 ∷ 108 ∷ 100
    ∷ 111 ∷ 119 ∷ 110 ∷ 64 ∷ 110 ∷ 101 ∷ 116 ∷ 109 ∷ 115 ∷ 103 ∷ 46 ∷ 100 ∷ 100 ∷ 110 ∷ 101 ∷ 116
    ∷ 46 ∷ 111 ∷ 114 ∷ 103 ∷ []

-- "map-sound-global@netmsg.ddnet.org"
abbrev pub name_sv_map_sound_global : List ℕ
name_sv_map_sound_global =
    109 ∷ 97 ∷ 112 ∷ 45 ∷ 115 ∷ 111 ∷ 117 ∷ 110 ∷ 100 ∷ 45 ∷ 103 ∷ 108 ∷ 111 ∷ 98 ∷ 97 ∷ 108 ∷ 64
    ∷ 110 ∷ 101 ∷ 116 ∷ 109 ∷ 115 ∷ 103 ∷ 46 ∷ 100 ∷ 100 ∷ 110 ∷ 101 ∷ 116 ∷ 46 ∷ 111 ∷ 114 ∷ 103
    ∷ []
