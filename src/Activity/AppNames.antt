-- ===== src/Activity/AppNames.antt =====
-- api/app_names.go and, from api/main.go, `ignoredAppUsageNames`, `isLinuxSystemProcessName` and
-- `isVisibleAppUsageName`.
use device_pulse.Prelude.{
  Text, codes, Bool, false, not, ◌||◌, ◌&&◌, List, [], ◌∷◌, none, some, Map, lookup, text_eq,
  list_beq, String, ◌≡◌, refl, Option-cases, inl, inr, arith, ap, ◌⊎◌, ◌∙◌, sym,
}
use device_pulse.Go.Strings.Trim.{trim_space_idem}
use device_pulse.Go.Strings.{trim_space, to_lower, trim_suffix, has_prefix, contains}

abbrev pub app_aliases : Map Text Text
app_aliases =
    (codes "google-chrome", codes "chrome")
    ∷ (codes "google-chrome-stable", codes "chrome")
    ∷ (codes "chromium-browser", codes "chromium")
    ∷ (codes "firefox_firefox", codes "firefox")
    ∷ (codes "org.mozilla.firefox", codes "firefox")
    ∷ (codes "firefox-esr", codes "firefox")
    ∷ []

unfoldable pub display_app_name : Text → Text
display_app_name name = elim (lookup (to_lower (trim_space name)) app_aliases) [
  | some alias ↦ alias
  | none ↦ trim_space name
]

unfoldable pub app_key : Text → Text
unfolding display_app_name
app_key name = to_lower (display_app_name name)

ignored_app_usage_names : List String
ignored_app_usage_names =
    "devicepulse-age" ∷ "devicepulse-agent" ∷ "systemd" ∷ "systemd-journald" ∷ "systemd-logind"
    ∷ "systemd-udevd" ∷ "systemd-resolved" ∷ "systemd-networkd" ∷ "systemd-timesyncd" ∷ "init"
    ∷ "apt-check" ∷ "apt.systemd.daily" ∷ "apt-get" ∷ "dpkg" ∷ "packagekitd" ∷ "packagekit"
    ∷ "snapd" ∷ "snap" ∷ "appstreamcli" ∷ "xdelta3" ∷ "unattended-upgr" ∷ "unattended-upgrade"
    ∷ "update-notifier" ∷ "dnf" ∷ "yum" ∷ "rpm" ∷ "zypper" ∷ "pacman" ∷ "flatpak" ∷ "dbus-daemon"
    ∷ "dbus-launch" ∷ "gdbus" ∷ "ibus-daemon" ∷ "at-spi-bus-launcher" ∷ "at-spi2-registryd" ∷ "xorg"
    ∷ "xwayland" ∷ "mutter" ∷ "kwin_wayland" ∷ "kwin_x11" ∷ "kwin" ∷ "openbox" ∷ "xfwm4" ∷ "picom"
    ∷ "compiz" ∷ "sway" ∷ "wayfire" ∷ "gnome-shell" ∷ "gnome-session" ∷ "gnome-session-binary"
    ∷ "gnome-keyring-daemon" ∷ "gnome-settings-daemon" ∷ "plasmashell" ∷ "kded5" ∷ "kded6"
    ∷ "baloo_file" ∷ "kactivitymanagerd" ∷ "upowerd" ∷ "udisksd" ∷ "bluetoothd" ∷ "networkmanager"
    ∷ "modemmanager" ∷ "wpa_supplicant" ∷ "avahi-daemon" ∷ "cupsd" ∷ "fwupd" ∷ "thermald"
    ∷ "rtkit-daemon" ∷ "polkitd" ∷ "colord" ∷ "geoclue" ∷ "rsyslogd" ∷ "syslogd" ∷ "auditd"
    ∷ "crond" ∷ "cron" ∷ "atd" ∷ "sshd" ∷ "firewalld" ∷ "nginx" ∷ "apache2" ∷ "httpd" ∷ "mysqld"
    ∷ "postgres" ∷ "redis-server" ∷ "dockerd" ∷ "containerd" ∷ "containerd-shim" ∷ "sh" ∷ "bash"
    ∷ "dash" ∷ "zsh" ∷ "fish" ∷ "python" ∷ "python3" ∷ "perl" ∷ "ruby" ∷ "node" ∷ "gjs" ∷ "pipewire"
    ∷ "pipewire-pulse" ∷ "wireplumber" ∷ "pulseaudio" ∷ []

unfoldable pub any_text : (Text → Bool) → List String → Bool
any_text p [] = false
any_text p (s ∷ ss) = p (codes s) || any_text p ss

linux_prefixes : List String
linux_prefixes =
    "systemd-" ∷ "gsd-" ∷ "gvfs" ∷ "gnome-" ∷ "plasma" ∷ "akonadi" ∷ "xdg-" ∷ "tracker"
    ∷ "evolution" ∷ "devicepulse-" ∷ []

unfoldable pub is_linux_system_process_name : Text → Bool
unfolding linux_prefixes any_text has_prefix
is_linux_system_process_name key = any_text (has_prefix key) linux_prefixes

unfoldable pub is_visible_key : Text → Bool
unfolding is_linux_system_process_name ignored_app_usage_names
is_visible_key key =
    not (text_eq.beq key [])
    && not (any_text (text_eq.beq key) ignored_app_usage_names)
    && not (is_linux_system_process_name key)
    && not (contains key (codes "packagekit"))

unfoldable pub is_visible_app_usage_name : Text → Bool
unfolding is_visible_key
is_visible_app_usage_name name =
    is_visible_key (trim_suffix (to_lower (trim_space name)) (codes ".service"))

alias_cases :
    (k v : Text)
    → lookup k app_aliases ≡ some v
    → (v ≡ codes "chrome") ⊎ (v ≡ codes "chromium") ⊎ (v ≡ codes "firefox")
unfolding lookup
alias_cases k v h = ground arith

display_aliases :
    (display_app_name (codes "chrome") ≡ codes "chrome")
    × (display_app_name (codes "chromium") ≡ codes "chromium")
    × (display_app_name (codes "firefox") ≡ codes "firefox")
unfolding lookup display_app_name list_beq trim_space
display_aliases = (refl, refl, refl)

display_alias : (k v : Text) → lookup k app_aliases ≡ some v → display_app_name v ≡ v
display_alias k v h = elim (alias_cases k v h) [
  | inl e ↦ rw e display_aliases.0
  | inr (inl e) ↦ rw e display_aliases.1
  | inr (inr e) ↦ rw e display_aliases.2
]

display_plain :
    (name : Text)
    → lookup (to_lower (trim_space name)) app_aliases ≡ none
    → display_app_name name ≡ trim_space name
unfolding display_app_name
display_plain name e = rw (e, display_app_name)

display_known :
    (name v : Text)
    → lookup (to_lower (trim_space name)) app_aliases ≡ some v
    → display_app_name name ≡ v
unfolding display_app_name
display_known name v e = rw (e, display_app_name)

-- A name that has been resolved once is not changed by resolving it again.
pub display_app_name_idem :
    (name : Text) → display_app_name (display_app_name name) ≡ display_app_name name
display_app_name_idem name = elim (Option-cases (lookup (to_lower (trim_space name)) app_aliases)) [
  | inl e ↦
      let d = display_plain name e in
      ap display_app_name d
      ∙ display_plain (trim_space name) (rw (trim_space_idem name) e)
      ∙ trim_space_idem name
      ∙ sym d
  | inr (v, e) ↦
      let d = display_known name v e in ap display_app_name d ∙ display_alias _ v e ∙ sym d
]
