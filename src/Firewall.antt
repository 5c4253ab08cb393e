-- ===== src/Firewall.antt =====
-- firewall.rs: the scripts for `nft`.
use michoi.Common.{
  ℕ, not, Option, none, some, [], ◌∷◌, ◌++◌, str_eq, Result, ok, err, ensure, ◌>>◌, ◌>>=◌,
}
use michoi.Common.Bytes.{Str, ascii}
use michoi.Common.Text.{decimal}
use michoi.Net.{Ipv4Addr}
use michoi.Net.Address.{ip_text}
use michoi.Config.{Config, CoexistenceMode, manual, automatic, unset_interface}

pub data FirewallError : Type 0 where
  pad_interface_not_configured door_interface_not_configured no_room_ip : FirewallError

abbrev pub table : Str
table = ascii "michoi"

abbrev pub line : Str → Str
line text = text ++ (10 ∷ [])

abbrev room_of : Option Ipv4Addr → Result FirewallError Ipv4Addr
room_of none = err no_room_ip
room_of (some room) = ok room

-- The `body` of the two modes.
abbrev pub rule_body : CoexistenceMode → Config → Ipv4Addr → Str
rule_body manual config room =
    ascii "iifname \""
    ++ (config.intercom.pad_interface
        ++ (ascii "\" ip saddr "
            ++ (ip_text room
                ++ (ascii " udp dport { "
                    ++ (decimal config.intercom.control_port
                        ++ (ascii ", "
                            ++ (decimal config.intercom.discovery_port
                                ++ ascii " } counter drop")))))))
rule_body automatic config room =
    ascii "iifname \""
    ++ (config.intercom.pad_interface
        ++ (ascii "\" ip saddr "
            ++ (ip_text room
                ++ (ascii " udp dport "
                    ++ (decimal config.intercom.control_port
                        ++ (ascii " counter queue num "
                            ++ (decimal config.coexistence.nfqueue ++ ascii " bypass")))))))

-- The table around the rules, each of them with its line's end.
abbrev pub table_of : Str → Str
table_of rules =
    line (ascii "table bridge " ++ (table ++ ascii " {"))
    ++ (line (ascii "  chain forward {")
        ++ (line (ascii "    type filter hook forward priority -200; policy accept;")
            ++ (rules ++ (line (ascii "  }") ++ line (ascii "}")))))

unfoldable pub nft_rules : Config → Result FirewallError Str
nft_rules config =
    ensure (not (str_eq config.intercom.pad_interface unset_interface)) pad_interface_not_configured
    >> (room_of config.intercom.room_ip >>= λ room.
        ok (table_of (line (ascii "    " ++ rule_body config.coexistence.mode config room))))

-- One rule that drops what comes in on an interface from an address to the control port.
abbrev pub drop_rule : Str → Ipv4Addr → ℕ → Str
drop_rule interface address control = line (
    ascii "    iifname \""
    ++ (interface
        ++ (ascii "\" ip saddr "
            ++ (ip_text address
                ++ (ascii " udp dport " ++ (decimal control ++ ascii " counter drop"))))))

unfoldable pub pad_silence_rules : Str → Str → Ipv4Addr → Ipv4Addr → ℕ → Result FirewallError Str
pad_silence_rules pad door door_ip room control =
    ensure (not (str_eq pad unset_interface)) pad_interface_not_configured
    >> (ensure (not (str_eq door unset_interface)) door_interface_not_configured
        >> ok (table_of (drop_rule door door_ip control ++ drop_rule pad room control)))

abbrev pub flush_table_command : Str
flush_table_command =
    line (ascii "add table bridge " ++ table) ++ line (ascii "delete table bridge " ++ table)
