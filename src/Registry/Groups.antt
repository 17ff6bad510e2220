-- ===== src/Registry/Groups.antt =====
-- internal/skills/groups.go: the groups that skills are shown under.
use open_light.Base.{Option, none, some, List, [], ◌∷◌, if◌then◌else◌, first}
use open_light.Base.Int.{ℤ, pos, eqb_ℤ}
use open_light.Base.Text.{Text, codes, eqt, to_lower, trim_space, is_empty_text}

pub record Group : Type 0 where
  pub key : Text
  pub title : Text
  pub description : Text
  pub order : ℤ

abbrev pub group_chat : Group
group_chat = record {
  key = codes "chat";
  title = codes "Chat";
  description = codes "Free-form conversation with the configured LLM.";
  order = pos 0;
}

abbrev pub group_notes : Group
group_notes = record {
  key = codes "notes";
  title = codes "Notes";
  description = codes "Save, list, and delete short notes.";
  order = pos 1;
}

abbrev pub group_memory : Group
group_memory = record {
  key = codes "memory";
  title = codes "Memory";
  description = codes "Remember, search, and forget durable facts, preferences, and notes.";
  order = pos 2;
}

abbrev pub group_files : Group
group_files = record {
  key = codes "files";
  title = codes "Files";
  description = codes "Read, list, write, and replace text inside whitelisted paths.";
  order = pos 3;
}

abbrev pub group_browser : Group
group_browser = record {
  key = codes "browser";
  title = codes "Browser";
  description =
      codes
        "Fetch page titles, visible text, screenshots, and simple health checks through Playwright.";
  order = pos 4;
}

abbrev pub group_vision : Group
group_vision = record {
  key = codes "vision";
  title = codes "Vision";
  description =
      codes
        "Describe images, compare screenshots, and summarize visual changes through a configured vision model.";
  order = pos 11;
}

abbrev pub group_ocr : Group
group_ocr = record {
  key = codes "ocr";
  title = codes "OCR";
  description = codes "Extract text from images and screenshots using a local OCR backend.";
  order = pos 12;
}

abbrev pub group_visual_watch : Group
group_visual_watch = record {
  key = codes "visual_watch";
  title = codes "Visual watch";
  description =
      codes
        "Periodically capture URLs, diff against the baseline, and notify on visual or keyword changes.";
  order = pos 14;
}

abbrev pub group_workbench : Group
group_workbench = record {
  key = codes "workbench";
  title = codes "Workbench";
  description = codes "Run temporary code in a workspace or execute explicitly allowed files.";
  order = pos 5;
}

abbrev pub group_services : Group
group_services = record {
  key = codes "services";
  title = codes "Services";
  description = codes "Inspect whitelisted services, view logs, and restart them.";
  order = pos 6;
}

abbrev pub group_watch : Group
group_watch = record {
  key = codes "watch";
  title = codes "Watch";
  description =
      codes "Monitor allowlisted services and local metrics, then notify, ask, or auto-react.";
  order = pos 7;
}

abbrev pub group_accounts : Group
group_accounts = record {
  key = codes "accounts";
  title = codes "Accounts";
  description = codes "Manage configured application users through explicit account providers.";
  order = pos 8;
}

abbrev pub group_system : Group
group_system = record {
  key = codes "system";
  title = codes "System";
  description =
      codes "Overall host status plus cpu, memory, disk, uptime, hostname, ip, and temperature.";
  order = pos 9;
}

abbrev pub group_core : Group
group_core = record {
  key = codes "core";
  title = codes "Core";
  description = codes "Help, discovery, and core bot commands.";
  order = pos 10;
}

abbrev pub group_network : Group
group_network = record {
  key = codes "network";
  title = codes "Network";
  description = codes "Probe allowlisted hosts: TCP ports, HTTP endpoints, TLS certs, DNS records.";
  order = pos 13;
}

abbrev pub group_mcp : Group
group_mcp = record {
  key = codes "mcp";
  title = codes "MCP";
  description = codes "Tools provided by configured Model Context Protocol servers.";
  order = pos 15;
}

abbrev pub group_other : Group
group_other = record {
  key = codes "other";
  title = codes "Other";
  description = codes "Other built-in tools.";
  order = pos 99;
}

abbrev pub well_known_groups : List Group
well_known_groups =
    group_chat ∷ group_notes ∷ group_memory ∷ group_files ∷ group_browser ∷ group_vision ∷ group_ocr
    ∷ group_visual_watch ∷ group_workbench ∷ group_services ∷ group_watch ∷ group_accounts
    ∷ group_system ∷ group_core ∷ group_network ∷ group_mcp ∷ group_other ∷ []

abbrev or_text : Text → Text → Text
or_text t other = if is_empty_text t then other else t

-- What is missing is filled in from the canonical group of the same key.
unfoldable pub fill_group : Option Group → Group → Group
fill_group none group = group
fill_group (some canonical) group = record group {
  title = or_text group.title canonical.title;
  description = or_text group.description canonical.description;
  order = if eqb_ℤ group.order (pos 0) then canonical.order else group.order;
}

-- The title, or the key; the description, or the title.
unfoldable pub name_group : Group → Group
name_group group =
    let title = or_text group.title group.key in
    record group { title = title; description = or_text group.description title }

unfoldable pub trim_group : Group → Group
trim_group group = record group {
  key = to_lower (trim_space group.key);
  title = trim_space group.title;
  description = trim_space group.description;
}

unfoldable pub canonical : Text → Option Group
canonical key = first (λ g. eqt g.key key) well_known_groups

unfoldable pub normalize_group : Group → Group
unfolding fill_group name_group trim_group canonical
normalize_group group =
    let trimmed = trim_group group in
    if is_empty_text trimmed.key
    then group_other
    else name_group (fill_group (canonical trimmed.key) trimmed)
