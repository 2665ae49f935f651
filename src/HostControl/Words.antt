-- ===== src/HostControl/Words.antt =====
-- The word lists of hostcontrol/policy.py.
use decode.Prelude.{String, List, [], ◌∷◌}

abbrev pub destructive_binaries : List String
destructive_binaries =
    "rm" ∷ "rmdir" ∷ "dd" ∷ "mkfs" ∷ "shutdown" ∷ "reboot" ∷ "halt" ∷ "poweroff" ∷ "kill" ∷ "pkill"
    ∷ "killall" ∷ "shred" ∷ "fdisk" ∷ "parted" ∷ "wipefs" ∷ "userdel" ∷ []

abbrev pub write_binaries : List String
write_binaries =
    "mv" ∷ "cp" ∷ "tee" ∷ "chmod" ∷ "chown" ∷ "ln" ∷ "touch" ∷ "mkdir" ∷ "install" ∷ "apt"
    ∷ "apt-get" ∷ "pip" ∷ "pip3" ∷ "npm" ∷ "systemctl" ∷ "service" ∷ "sed" ∷ "truncate" ∷ "git" ∷ []

abbrev pub destructive_tokens : List String
destructive_tokens = "--force" ∷ "-rf" ∷ "-fr" ∷ "--no-preserve-root" ∷ []

abbrev pub shell_control_tokens : List String
shell_control_tokens =
    "|" ∷ "||" ∷ "&&" ∷ ";" ∷ "&" ∷ "<" ∷ ">" ∷ ">>" ∷ "1>" ∷ "1>>" ∷ "2>" ∷ "2>>" ∷ []

abbrev pub shell_interpreters : List String
shell_interpreters = "sh" ∷ "bash" ∷ "zsh" ∷ "fish" ∷ "cmd" ∷ "cmd.exe" ∷ "powershell" ∷ "pwsh" ∷ []

abbrev pub network_binaries : List String
network_binaries =
    "amass" ∷ "chromium" ∷ "chromium-browser" ∷ "curl" ∷ "dig" ∷ "ffuf" ∷ "firefox" ∷ "gobuster"
    ∷ "google-chrome" ∷ "host" ∷ "httpx" ∷ "links" ∷ "lynx" ∷ "naabu" ∷ "nc" ∷ "ncat" ∷ "netcat"
    ∷ "nikto" ∷ "nmap" ∷ "nslookup" ∷ "nuclei" ∷ "rsync" ∷ "scp" ∷ "sftp" ∷ "sqlmap" ∷ "ssh"
    ∷ "subfinder" ∷ "telnet" ∷ "w3m" ∷ "wget" ∷ []

abbrev pub diagnostic_flags : List String
diagnostic_flags = "--help" ∷ "--version" ∷ []

abbrev pub sudo_value_flags : List String
sudo_value_flags =
    "-u" ∷ "--user" ∷ "-g" ∷ "--group" ∷ "-p" ∷ "--prompt" ∷ "-C" ∷ "--close-from" ∷ "-h" ∷ "--host"
    ∷ "-R" ∷ "--chroot" ∷ "-D" ∷ "--chdir" ∷ "-T" ∷ "--command-timeout" ∷ "-r" ∷ "--role" ∷ "-t"
    ∷ "--type" ∷ []
