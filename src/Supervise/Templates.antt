-- ===== src/Supervise/Templates.antt =====
-- The templates of src/supervise.rs: for each, the lines that it is made of.
use zeronsd.Base.{List, [], ◌∷◌, ◌++◌, String, Text, codes}

-- The text of the lines.
abbrev pub text_of : List String → Text
text_of [] = []
text_of (line ∷ lines) = codes line ++ text_of lines

-- `SYSTEMD_TEMPLATE`
abbrev pub systemd_template : List String
systemd_template =
    "\n" ∷ "[Unit]\n" ∷ "Description=zeronsd for network {launcher.network_id}\n"
    ∷ "Requires=zerotier-one.service\n" ∷ "After=zerotier-one.service\n" ∷ "\n" ∷ "[Service]\n"
    ∷ "Type=simple\n"
    ∷ "ExecStart={binpath} start -t {launcher.token} {{ if config }}-c {config} {{endif}}{{ if config_type_supplied }}--config-type {config_type} {{endif}}{{ if launcher.wildcard }}-w {{endif}}{{ if launcher.secret }}-s {launcher.secret} {{endif}}{{ if launcher.hosts }}-f {launcher.hosts} {{ endif }}{{ if launcher.domain }}-d {launcher.domain} {{ endif }}{launcher.network_id}\n"
    ∷ "TimeoutStopSec=30\n" ∷ "Restart=always\n" ∷ "\n" ∷ "[Install]\n"
    ∷ "WantedBy=default.target\n" ∷ []

-- `ALPINE_TEMPLATE`
abbrev pub alpine_template : List String
alpine_template =
    "\n" ∷ "#!/sbin/openrc-run\n" ∷ "\n" ∷ "depend() \\{\n" ∷ "    need zerotier-one\n"
    ∷ "    use network dns logger netmount\n" ∷ "}\n" ∷ "\n"
    ∷ "description=\"zeronsd for network {launcher.network_id}\"\n" ∷ "command=\"{binpath}\"\n"
    ∷ "command_args=\"start -t {launcher.token} {{ if config }}-c {config} {{endif}}{{ if config_type_supplied }}--config-type {config_type} {{endif}}{{ if launcher.wildcard }}-w {{endif}}{{ if launcher.secret }}-s {launcher.secret} {{endif}}{{ if launcher.hosts }}-f {launcher.hosts} {{ endif }}{{ if launcher.domain }}-d {launcher.domain} {{ endif }}{launcher.network_id}\"\n"
    ∷ "command_background=\"yes\"\n" ∷ "pidfile=\"/run/$RC_SVCNAME.pid\"\n" ∷ []

-- `SERVICE_TEMPLATE` on macOS
abbrev pub macos_template : List String
macos_template =
    "\n" ∷ "<?xml version=\"1.0\" encoding=\"UTF-8\"?>\n"
    ∷ "<!DOCTYPE plist PUBLIC \"-//Apple//DTD PLIST 1.0//EN\" \"http://www.apple.com/DTDs/PropertyList-1.0.dtd\">\n"
    ∷ "<plist version=\"1.0\">\n" ∷ "  <dict>\n"
    ∷ "    <key>Label</key> <string>com.zerotier.nsd.{launcher.network_id}</string>\n" ∷ "\n"
    ∷ "    <key>ProgramArguments</key>\n" ∷ "    <array>\n" ∷ "      <string>{binpath}</string>\n"
    ∷ "      <string>start</string>\n" ∷ "      <string>-t</string>\n"
    ∷ "      <string>{launcher.token}</string>\n" ∷ "      {{ if launcher.wildcard }}\n"
    ∷ "      <string>-w</string>\n" ∷ "      {{endif}}\n" ∷ "      {{ if launcher.secret }}\n"
    ∷ "      <string>-s</string>\n" ∷ "      <string>{launcher.secret}</string>\n"
    ∷ "      {{endif}}\n" ∷ "      {{ if launcher.hosts }}\n" ∷ "      <string>-f</string>\n"
    ∷ "      <string>{launcher.hosts}</string>\n" ∷ "      {{ endif }}\n"
    ∷ "      {{ if launcher.domain }}\n" ∷ "      <string>-d</string>\n"
    ∷ "      <string>{launcher.domain}</string>\n" ∷ "      {{ endif }}\n"
    ∷ "      {{ if config }}\n" ∷ "      <string>-c</string>\n"
    ∷ "      <string>{config}</string>\n" ∷ "      {{ endif }}\n"
    ∷ "      {{ if config_type_supplied }}\n" ∷ "      <string>--config-type</string>\n"
    ∷ "      <string>{config_type}</string>\n" ∷ "      {{ endif }}\n"
    ∷ "      <string>{launcher.network_id}</string>\n" ∷ "    </array>\n" ∷ "\n"
    ∷ "    <key>UserName</key> <string>root</string>\n" ∷ "\n"
    ∷ "    <key>RunAtLoad</key> <true/>\n" ∷ "\n" ∷ "    <key>KeepAlive</key> <true/>\n" ∷ "\n"
    ∷ "    <key>StandardErrorPath</key> <string>/var/log/zerotier/nsd/{launcher.network_id}.err</string>\n"
    ∷ "    <key>StandardOutPath</key> <string>/var/log/zerotier/nsd/{launcher.network_id}.log</string>\n"
    ∷ "\n" ∷ "  </dict>\n" ∷ "    </plist>\n" ∷ []
